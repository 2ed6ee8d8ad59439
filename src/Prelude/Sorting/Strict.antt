-- ===== src/Prelude/Sorting/Strict.antt =====
-- Sorting rows by a key that no two of them share.
use rosemary_virsree.Prelude.Tests.{if◌then◌else◌, Bool-cases}
use rosemary_virsree.Prelude.Text.{Str, str_eq, str_lt, str_eq_refl}
use rosemary_virsree.Prelude.Table.{select, count}
use rosemary_virsree.Prelude.Sorting.{insert, sort}
use rosemary_virsree.Prelude.Sorting.Counts.{count-sort}
use Prim.Native.Nat.{◌≤◌}
use mathlib.Core.Path.{◌≡◌, refl, ap, ◌∙◌}
use mathlib.Core.Logic.{inl, inr}
use mathlib.Core.Bool.{Bool, true, false, not}
use mathlib.Core.List.{List, [], ◌∷◌}
use native.Mathlib.Omega.{arith}

pub str_lt_irrefl : (s : Str) → str_lt s s ≡ false
unfolding str_lt
str_lt_irrefl [] = refl
str_lt_irrefl (a ∷ s) = ground (arith, str_lt_irrefl s)

pub str_lt_trans : (s t u : Str) → str_lt s t ≡ true → str_lt t u ≡ true → str_lt s u ≡ true
unfolding str_lt
str_lt_trans [] [] u h k = ground arith
str_lt_trans [] (b ∷ t) [] h k = ground arith
str_lt_trans [] (b ∷ t) (c ∷ u) h k = refl
str_lt_trans (a ∷ s) [] u h k = ground arith
str_lt_trans (a ∷ s) (b ∷ t) [] h k = ground arith
str_lt_trans (a ∷ s) (b ∷ t) (c ∷ u) h k = ground (arith, str_lt_trans s t u)

pub str_lt_total : (s t : Str) → str_lt s t ≡ false → str_eq s t ≡ false → str_lt t s ≡ true
unfolding str_lt str_eq
str_lt_total [] [] h k = ground arith
str_lt_total [] (b ∷ t) h k = ground arith
str_lt_total (a ∷ s) [] h k = refl
str_lt_total (a ∷ s) (b ∷ t) h k = ground (arith, str_lt_total s t)

pub str_lt_asym : (s t : Str) → str_lt s t ≡ true → str_lt t s ≡ false
str_lt_asym s t h = ground (arith, str_lt_trans s t s h, str_lt_irrefl s)

module _ {A : Type 0} (key : A → Str) where
  abbrev pub before : A → A → Bool
  before x y = str_lt (key x) (key y)

  -- Each row's key is below the keys of all rows behind it.
  unfoldable pub Ascending : List A → Type 0
  Ascending [] = Unit {0}
  Ascending (x ∷ xs) = (count (λ y. not (before x y)) xs ≡ 0) × Ascending xs

  insert-below :
      (y x : A) (ys : List A)
      → count (λ z. not (before y z)) ys ≡ 0
      → before y x ≡ true
      → count (λ z. not (before y z)) (insert before x ys) ≡ 0
  unfolding count insert
  insert-below y x [] h k = ground arith
  insert-below y x (z ∷ ys) h k = ground (arith, insert-below y x ys)

  -- What is below the first row is below all of them.
  below_all :
      (x y : A) (ys : List A)
      → count (λ z. not (before y z)) ys ≡ 0
      → before x y ≡ true
      → count (λ z. not (before x z)) ys ≡ 0
  unfolding count
  below_all x y [] h k = refl
  below_all x y (z ∷ ys) h k =
      ground (arith, below_all x y ys, str_lt_trans (key x) (key y) (key z))

  insert-Ascending :
      (x : A) (ys : List A)
      → Ascending ys
      → count (λ y. str_eq (key y) (key x)) ys ≡ 0
      → Ascending (insert before x ys)
  unfolding Ascending insert count
  insert-Ascending x [] h k = (refl, tt)
  insert-Ascending x (y ∷ ys) h k = elim (Bool-cases (before y x)) [
    | inl below ↦ rw below (insert-below y x ys h.0 below, insert-Ascending x ys h.1 (ground arith))
    | inr above ↦
        let under : before x y ≡ true = str_lt_total (key y) (key x) above (ground arith) in
        rw above ((ground (arith, under, below_all x y ys h.0 under)), h)
  ]

  -- No two rows have the same key.
  abbrev pub Distinct : List A → Type 0
  Distinct xs = (k : Str) → count (λ y. str_eq (key y) k) xs ≤ 1

  pub sort-Ascending : (xs : List A) → Distinct xs → Ascending (sort before xs)
  unfolding sort Ascending count
  sort-Ascending [] h = tt
  sort-Ascending (x ∷ xs) h =
      let once = h (key x) in
      let none_left : count (λ y. str_eq (key y) (key x)) xs ≡ 0 =
        ground (arith, once, str_eq_refl (key x)) in
      insert-Ascending x (sort before xs) (sort-Ascending xs (λ k. omega (arith, h k)))
        (count-sort (λ y. str_eq (key y) (key x)) before xs ∙ none_left)

  module _ (p : A → Bool) where
    select-below :
        (x : A) (ys : List A)
        → count (λ z. not (before x z)) ys ≡ 0
        → count (λ z. not (before x z)) (select p ys) ≡ 0
    unfolding select count
    select-below x [] h = refl
    select-below x (y ∷ ys) h = ground (arith, select-below x ys)

    insert_first :
        (x : A) (ys : List A) → count (λ z. not (before x z)) ys ≡ 0 → insert before x ys ≡ x ∷ ys
    unfolding insert count
    insert_first x [] h = refl
    insert_first x (y ∷ ys) h = ground (arith, str_lt_asym (key x) (key y))

    select-insert :
        (x : A) (ys : List A)
        → Ascending ys
        → count (λ y. str_eq (key y) (key x)) ys ≡ 0
        → select p (insert before x ys)
          ≡ (if p x then insert before x (select p ys) else select p ys)
    unfolding Ascending insert select count
    select-insert x [] h k = ground arith
    select-insert x (y ∷ ys) h k = elim (Bool-cases (before y x)) [
      | inl below ↦ ground (arith, select-insert x ys h.1)
      | inr above ↦
          let under : before x y ≡ true = str_lt_total (key y) (key x) above (ground arith) in
          let rest =
            insert_first x (select p ys) (select-below x ys (below_all x y ys h.0 under)) in
          ground (arith, rest, above)
    ]

    -- Sorting what is selected is selecting what is sorted.
    pub sort-select :
        (xs : List A) → Distinct xs → sort before (select p xs) ≡ select p (sort before xs)
    unfolding sort select count
    sort-select [] h = refl
    sort-select (x ∷ xs) h =
        let once = h (key x) in
        let none_left : count (λ y. str_eq (key y) (key x)) xs ≡ 0 =
          ground (arith, once, str_eq_refl (key x)) in
        let rest : Distinct xs = λ k. omega (arith, h k) in
        let inner = sort-select xs rest in
        let outer =
          select-insert x (sort before xs) (sort-Ascending xs rest)
            (count-sort (λ y. str_eq (key y) (key x)) before xs ∙ none_left) in
        elim (Bool-cases (p x)) [
          | inl chosen ↦ rw chosen (ap (insert before x) inner ∙ ground (arith, outer, chosen))
          | inr left ↦ rw left (inner ∙ ground (arith, outer, left))
        ]
