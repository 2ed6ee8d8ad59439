-- ===== src/Prelude/Table/Rows.antt =====
-- What DELETE, UPDATE and INSERT do to a lookup, to EXISTS and to count(*).
use rosemary_virsree.Prelude.Tests.{if◌then◌else◌}
use rosemary_virsree.Prelude.Table.{find, any, select, remove, update, count}
use Prim.Native.Nat.{◌≤◌}
use mathlib.Core.Path.{◌≡◌, refl}
use mathlib.Core.Bool.{Bool, true, false, not, ◌&&◌}
use mathlib.Core.Option
use mathlib.Core.Option.{Option, none, some}
use mathlib.Core.List.{List, [], ◌∷◌}
use native.Mathlib.Omega.{arith}

module _ {ℓ} {A : Type ℓ} (p : A → Bool) where
  pub find-holds : (xs : List A) (x : A) → find p xs ≡ some x → p x ≡ true
  unfolding find
  find-holds [] x e = ground arith
  find-holds (y ∷ xs) x e = ground (arith, find-holds xs x)

  pub count-find-none : (xs : List A) → find p xs ≡ none → count p xs ≡ 0
  unfolding find count
  count-find-none [] e = refl
  count-find-none (x ∷ xs) e = ground (arith, count-find-none xs)

  pub find-count_zero : (xs : List A) → count p xs ≡ 0 → find p xs ≡ none
  unfolding find count
  find-count_zero [] e = refl
  find-count_zero (x ∷ xs) e = ground (arith, find-count_zero xs)

  pub count-any-false : (xs : List A) → any p xs ≡ false → count p xs ≡ 0
  unfolding any count
  count-any-false [] e = refl
  count-any-false (x ∷ xs) e = ground (arith, count-any-false xs)

  pub any-count_zero : (xs : List A) → count p xs ≡ 0 → any p xs ≡ false
  unfolding any count
  any-count_zero [] e = refl
  any-count_zero (x ∷ xs) e = ground (arith, any-count_zero xs)

  pub remove-count_zero : (xs : List A) → count p xs ≡ 0 → remove p xs ≡ xs
  unfolding remove count
  remove-count_zero [] e = refl
  remove-count_zero (x ∷ xs) e = ground (arith, remove-count_zero xs)

  pub update-count_zero : (f : A → A) (xs : List A) → count p xs ≡ 0 → update p f xs ≡ xs
  unfolding update count
  update-count_zero f [] e = refl
  update-count_zero f (x ∷ xs) e = ground (arith, update-count_zero f xs)

  pub find-remove_self : (xs : List A) → find p (remove p xs) ≡ none
  unfolding find remove
  find-remove_self [] = refl
  find-remove_self (x ∷ xs) = ground (arith, find-remove_self xs)

module _ {ℓ} {A : Type ℓ} (p q : A → Bool) where
  pub count-remove-le : (xs : List A) → count p (remove q xs) ≤ count p xs
  unfolding count remove
  count-remove-le [] = omega arith
  count-remove-le (x ∷ xs) = ground (arith, count-remove-le xs)

  -- A statement that keeps the columns that `p` reads keeps every lookup by them.
  module _ (f : A → A) (keeps : (x : A) → p (f x) ≡ p x) where
    pub count-update : (xs : List A) → count p (update q f xs) ≡ count p xs
    unfolding count update
    count-update [] = refl
    count-update (x ∷ xs) = ground (arith, count-update xs, keeps x)

    pub find-update :
        (xs : List A)
        → find p (update q f xs) ≡ Option.map (λ x. if q x then f x else x) (find p xs)
    unfolding find update
    find-update [] = refl
    find-update (x ∷ xs) = ground (arith, find-update xs, keeps x)

  -- A row that a DELETE does not match is still found.
  pub find-remove_ne :
      ((x : A) → p x ≡ true → q x ≡ false) → (xs : List A) → find p (remove q xs) ≡ find p xs
  unfolding find remove
  find-remove_ne ne [] = refl
  find-remove_ne ne (x ∷ xs) = ground (arith, find-remove_ne ne xs, ne x)

module _ {ℓ} {A : Type ℓ} where
  -- A condition that every row meets holds of the row that is found.
  pub find-all :
      (r p : A → Bool) (xs : List A) (x : A)
      → count (λ y. not (r y)) xs ≡ 0
      → find p xs ≡ some x
      → r x ≡ true
  unfolding count find
  find-all r p [] x e h = ground arith
  find-all r p (y ∷ xs) x e h = ground (arith, find-all r p xs x)

  pub count-remove_self : (p : A → Bool) (xs : List A) → count p (remove p xs) ≡ 0
  unfolding count remove
  count-remove_self p [] = refl
  count-remove_self p (x ∷ xs) = ground (arith, count-remove_self p xs)

  -- No row that is found meets a condition that no row meets.
  pub find-count_zero_false :
      (r p : A → Bool) (xs : List A) (x : A) → count r xs ≡ 0 → find p xs ≡ some x → r x ≡ false
  unfolding count find
  find-count_zero_false r p [] x e h = ground arith
  find-count_zero_false r p (y ∷ xs) x e h = ground (arith, find-count_zero_false r p xs x)

  pub find-and_none :
      (p q : A → Bool) (xs : List A) → find p xs ≡ none → find (λ x. p x && q x) xs ≡ none
  unfolding find
  find-and_none p q [] h = refl
  find-and_none p q (x ∷ xs) h = ground (arith, find-and_none p q xs)

  find-and_false :
      (p q : A → Bool) (xs : List A) → count q xs ≡ 0 → find (λ y. p y && q y) xs ≡ none
  unfolding count find
  find-and_false p q [] h = refl
  find-and_false p q (y ∷ xs) h = ground (arith, find-and_false p q xs)

  -- Under a unique key a further condition selects no other row.
  pub find-and_unique :
      (p q : A → Bool) (xs : List A) (x : A)
      → count q xs ≤ 1
      → find (λ y. p y && q y) xs ≡ some x
      → find q xs ≡ some x
  unfolding count find
  find-and_unique p q [] x u h = ground arith
  find-and_unique p q (y ∷ xs) x u h =
      ground (arith, find-and_unique p q xs x, find-and_false p q xs)

module _ {ℓ} {A : Type ℓ} (p q : A → Bool) (apart : (x : A) → p x ≡ true → q x ≡ false) where
  -- Rows that a DELETE does not match are all still selected.
  pub select-remove_ne : (xs : List A) → select p (remove q xs) ≡ select p xs
  unfolding select remove
  select-remove_ne [] = refl
  select-remove_ne (x ∷ xs) = ground (arith, select-remove_ne xs, apart x)

module _ {ℓ} {A : Type ℓ} (p q : A → Bool) where
  -- A row that is found is counted by every condition that it meets.
  pub count-find-some : (xs : List A) (x : A) → find p xs ≡ some x → q x ≡ true → 1 ≤ count q xs
  unfolding find count
  count-find-some [] x e h = ground arith
  count-find-some (y ∷ xs) x e h = ground (arith, count-find-some xs x)
