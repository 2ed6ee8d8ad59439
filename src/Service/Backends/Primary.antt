-- ===== src/Service/Backends/Primary.antt =====
-- The candidates in their order, and the primary source.
use rosemary_virsree.Prelude.{
  ◌≡◌, refl, sym, subst, ◌∙◌, inl, inr, ◌⊎◌, Bool, true, false, not, ◌&&◌, ◌||◌, some, List, [],
  ◌∷◌, arith, Bool-cases, if◌then◌else◌,
}
use rosemary_virsree.Prelude.Table.{any, select}
use rosemary_virsree.Prelude.Sorting.{insert, sort}
use rosemary_virsree.Service.Backends.{
  Runtime, Manager, comes_before, legacy_source, primary, head_of, or_legacy, legacy_ready,
}

-- `comes_before` is a strict order in which "not before" is transitive.
comes_before_asym : (s t : Runtime) → comes_before s t ≡ true → comes_before t s ≡ false
comes_before_asym s t h = ground arith

not_before_trans :
    (s t u : Runtime)
    → comes_before s t ≡ false
    → comes_before t u ≡ false
    → comes_before s u ≡ false
not_before_trans s t u h k = ground arith

-- The head of an insertion is the new element, where it is before none, or the old head.
any-insert :
    (p : Runtime → Bool) (x : Runtime) (xs : List Runtime)
    → any p (insert comes_before x xs) ≡ (p x || any p xs)
unfolding any insert
any-insert p x [] = ground arith
any-insert p x (y ∷ ys) = ground (arith, any-insert p x ys)

any-sort : (p : Runtime → Bool) (xs : List Runtime) → any p (sort comes_before xs) ≡ any p xs
unfolding any sort
any-sort p [] = refl
any-sort p (x ∷ xs) = ground (arith, any-insert p x (sort comes_before xs), any-sort p xs)

-- An element that is not before `y` is not before what `y` is not before.
none_before :
    (x y : Runtime) (xs : List Runtime)
    → comes_before y x ≡ false
    → any (λ z. comes_before z y) xs ≡ false
    → any (λ z. comes_before z x) xs ≡ false
unfolding any
none_before x y [] h k = refl
none_before x y (z ∷ zs) h k =
    let this : comes_before z y ≡ false = ground arith in
    ground (arith, not_before_trans z y x this h, none_before x y zs h)

least_insert :
    (x h : Runtime) (ys : List Runtime)
    → ((k : Runtime) → head_of ys ≡ some k → any (λ z. comes_before z k) ys ≡ false)
    → head_of (insert comes_before x ys) ≡ some h
    → any (λ z. comes_before z h) ys ≡ false
unfolding any insert
least_insert x h [] least e = refl
least_insert x h (y ∷ ys) least e = elim (Bool-cases (comes_before y x)) [
  | inl before ↦ least h (ground arith)
  | inr behind ↦
      let same : x ≡ h = ground arith in
      subst (λ k. any (λ z. comes_before z k) (y ∷ ys) ≡ false) same
        (none_before x y (y ∷ ys) behind (least y refl))
]

head_insert :
    (x h : Runtime) (ys : List Runtime)
    → head_of (insert comes_before x ys) ≡ some h
    → comes_before x h ≡ false
unfolding insert
head_insert x h [] e = ground arith
head_insert x h (y ∷ ys) e = ground (arith, comes_before_asym y x)

least_sort :
    (xs : List Runtime) (h : Runtime)
    → head_of (sort comes_before xs) ≡ some h
    → any (λ z. comes_before z h) (sort comes_before xs) ≡ false
unfolding sort any
least_sort [] h e = refl
least_sort (x ∷ xs) h e =
    let rest = least_insert x h (sort comes_before xs) (least_sort xs) e in
    let this = head_insert x h (sort comes_before xs) e in
    any-insert (λ z. comes_before z h) x (sort comes_before xs) ∙ ground arith

any-select :
    (p q : Runtime → Bool) (xs : List Runtime) → any p (select q xs) ≡ any (λ x. q x && p x) xs
unfolding any select
any-select p q [] = refl
any-select p q (x ∷ xs) = ground (arith, any-select p q xs)

head_any :
    (p : Runtime → Bool) (xs : List Runtime) (h : Runtime)
    → any (λ x. not (p x)) xs ≡ false
    → head_of xs ≡ some h
    → p h ≡ true
unfolding any
head_any p [] h k e = ground arith
head_any p (x ∷ xs) h k e = let same : x ≡ h = ground arith in rw (← same) (ground arith)

any-true : (p : Runtime → Bool) (xs : List Runtime) → any (λ x. p x && true) xs ≡ any p xs
unfolding any
any-true p [] = refl
any-true p (x ∷ xs) = ground (arith, any-true p xs)

any_contradiction :
    (p : Runtime → Bool) (xs : List Runtime) → any (λ x. p x && not (p x)) xs ≡ false
unfolding any
any_contradiction p [] = refl
any_contradiction p (x ∷ xs) = ground (arith, any_contradiction p xs)

-- The source is one of the list.
abbrev pub Member : Runtime → List Runtime → Type 0
Member s [] = ⊥
Member s (x ∷ xs) = (s ≡ x) ⊎ Member s xs

Member-if :
    (s : Runtime) (b : Bool) (xs ys zs : List Runtime)
    → (Member s xs → Member s zs)
    → (Member s ys → Member s zs)
    → Member s (if b then xs else ys)
    → Member s zs
Member-if s true xs ys zs yes_case no_case found = yes_case found
Member-if s false xs ys zs yes_case no_case found = no_case found

Member-insert :
    (s x : Runtime) (xs : List Runtime) → Member s (insert comes_before x xs) → Member s (x ∷ xs)
unfolding insert
Member-insert s x [] found = found
Member-insert s x (y ∷ ys) found =
    Member-if s (comes_before y x) (y ∷ insert comes_before x ys) (x ∷ y ∷ ys) (x ∷ y ∷ ys)
      (λ f. elim f [
        | inl here ↦ inr (inl here)
        | inr there ↦ elim (Member-insert s x ys there) [
          | inl new ↦ inl new
          | inr old ↦ inr (inr old)
        ]
      ])
      (λ f. f) found

Member-sort : (s : Runtime) (xs : List Runtime) → Member s (sort comes_before xs) → Member s xs
unfolding sort
Member-sort s [] found = found
Member-sort s (x ∷ xs) found = elim (Member-insert s x (sort comes_before xs) found) [
  | inl here ↦ inl here
  | inr there ↦ inr (Member-sort s xs there)
]

Member-select :
    (s : Runtime) (p : Runtime → Bool) (xs : List Runtime) → Member s (select p xs) → Member s xs
unfolding select
Member-select s p [] found = found
Member-select s p (x ∷ xs) found =
    Member-if s (p x) (x ∷ select p xs) (select p xs) (x ∷ xs)
      (λ f. elim f [ inl here ↦ inl here | inr there ↦ inr (Member-select s p xs there) ])
      (λ f. inr (Member-select s p xs f)) found

abbrev pub is_usable : Runtime → Bool
is_usable s = s.meta.enabled && s.is_ready

any_usable-sort :
    (m : Manager)
    → any (λ _. true) (sort comes_before (select is_usable m.sources)) ≡ any is_usable m.sources
any_usable-sort m =
    any-sort (λ _. true) (select is_usable m.sources)
    ∙ (any-select (λ _. true) is_usable m.sources ∙ any-true is_usable m.sources)

first :
    (m : Manager) (s : Runtime) (ys : List Runtime)
    → sort comes_before (select is_usable m.sources) ≡ ys
    → head_of (or_legacy m.legacy ys) ≡ some s
    → (is_usable s ≡ true)
      × (any (λ t. is_usable t && comes_before t s) m.sources ≡ false)
      × (Member s m.sources
          ⊎ ((s ≡ legacy_source)
              × (legacy_ready m.legacy ≡ true)
              × (any is_usable m.sources ≡ false)))
unfolding any
first m s [] e h =
    let same : s ≡ legacy_source = ground arith in
    (
      rw same refl,
      sym (any-select (λ t. comes_before t s) is_usable m.sources)
          ∙ (sym (any-sort (λ t. comes_before t s) (select is_usable m.sources)) ∙ rw e refl),
      inr (same, ground (arith, h), sym (any_usable-sort m) ∙ rw e refl),
    )
first m s (y ∷ ys) e h =
    let least = least_sort (select is_usable m.sources) s (ground arith) in
    let wrong =
      any-sort (λ x. not (is_usable x)) (select is_usable m.sources)
      ∙ (any-select (λ x. not (is_usable x)) is_usable m.sources
          ∙ any_contradiction is_usable m.sources) in
    let same : s ≡ y = ground (arith, h) in
    let listed = subst (λ zs. Member s zs) (sym e) (inl same) in
    (
      head_any is_usable (sort comes_before (select is_usable m.sources)) s wrong (ground arith),
      sym (any-select (λ t. comes_before t s) is_usable m.sources)
          ∙ (sym (any-sort (λ t. comes_before t s) (select is_usable m.sources)) ∙ least),
      inl (Member-select s is_usable m.sources (Member-sort s (select is_usable m.sources) listed)),
    )

-- The primary source is enabled and ready, and no source that is has a smaller priority, or the same
-- priority and an earlier birth date. It is one of the sources, or it is the legacy backend, which
-- is then ready while no source is enabled and ready.
pub primary-first :
    (m : Manager) (s : Runtime)
    → primary m ≡ some s
    → (is_usable s ≡ true)
      × (any (λ t. is_usable t && comes_before t s) m.sources ≡ false)
      × (Member s m.sources
          ⊎ ((s ≡ legacy_source)
              × (legacy_ready m.legacy ≡ true)
              × (any is_usable m.sources ≡ false)))
unfolding primary any
primary-first m s h = first m s (sort comes_before (select is_usable m.sources)) refl h
