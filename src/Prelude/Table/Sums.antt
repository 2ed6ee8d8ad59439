-- ===== src/Prelude/Table/Sums.antt =====
-- What DELETE and UPDATE do to a sum over a table.
use rosemary_virsree.Prelude.Tests.{if◌then◌else◌}
use rosemary_virsree.Prelude.Table.{find, remove, update, total, count}
use rosemary_virsree.Prelude.Table.Rows.{remove-count_zero, update-count_zero}
use Prim.Native.Nat.{ℕ, ◌+◌, ◌≤◌}
use mathlib.Core.Path.{◌≡◌, refl}
use mathlib.Core.Bool.{Bool, true, false, not, ◌&&◌}
use mathlib.Core.Option.{some}
use mathlib.Core.List.{List, [], ◌∷◌}
use native.Mathlib.Omega.{arith}

module _ {ℓ} {A : Type ℓ} (p : A → Bool) (f : A → ℕ) where
  -- A DELETE takes the sum over the rows that it matches away.
  pub total-remove_all :
      (q : A → Bool) (xs : List A)
      → total p f (remove q xs) + total (λ x. q x && p x) f xs ≡ total p f xs
  unfolding total remove
  total-remove_all q [] = omega arith
  total-remove_all q (x ∷ xs) = ground (arith, total-remove_all q xs)

  pub total-count_zero : (xs : List A) → count p xs ≡ 0 → total p f xs ≡ 0
  unfolding total count
  total-count_zero [] e = refl
  total-count_zero (x ∷ xs) e = ground (arith, total-count_zero xs)

  -- Where every row has `r`, a further condition `r` changes no sum.
  pub total-and :
      (r : A → Bool) (xs : List A)
      → count (λ x. not (r x)) xs ≡ 0
      → total (λ x. p x && r x) f xs ≡ total p f xs
  unfolding total count
  total-and r [] e = refl
  total-and r (x ∷ xs) e = ground (arith, total-and r xs)

  -- Deleting the one row that a unique key selects.
  pub total-remove :
      (q : A → Bool) (xs : List A) (y : A)
      → count q xs ≤ 1
      → find q xs ≡ some y
      → total p f (remove q xs) + (if p y then f y else 0) ≡ total p f xs
  unfolding total remove find count
  total-remove q [] y u e = ground arith
  total-remove q (x ∷ xs) y u e = ground (arith, total-remove q xs y, remove-count_zero q xs)

  -- Updating the one row that a unique key selects.
  pub total-update :
      (q : A → Bool) (g : A → A) (xs : List A) (y : A)
      → count q xs ≤ 1
      → find q xs ≡ some y
      → total p f (update q g xs) + (if p y then f y else 0)
        ≡ total p f xs + (if p (g y) then f (g y) else 0)
  unfolding total update find count
  total-update q g [] y u e = ground arith
  total-update q g (x ∷ xs) y u e = ground (arith, total-update q g xs y, update-count_zero q g xs)

  -- A row that is found is part of the sum.
  pub le-total-find :
      (q : A → Bool) (xs : List A) (y : A)
      → find q xs ≡ some y
      → (if p y then f y else 0) ≤ total p f xs
  unfolding total find
  le-total-find q [] y e = ground arith
  le-total-find q (x ∷ xs) y e = ground (arith, le-total-find q xs y)

  -- Two conditions that no row meets together share no sum.
  pub total-disjoint :
      (q : A → Bool)
      → ((x : A) → p x ≡ true → q x ≡ false)
      → (xs : List A) → total p f (remove q xs) ≡ total p f xs
  unfolding total remove
  total-disjoint q ne [] = refl
  total-disjoint q ne (x ∷ xs) = ground (arith, total-disjoint q ne xs, ne x)

  -- DELETE of `q`, with the deleted rows' sum counted under a condition that every row meets.
  pub total-remove_ready :
      (q r : A → Bool) (xs : List A)
      → count (λ x. not (r x)) xs ≡ 0
      → total p f (remove q xs) + total (λ x. q x && (p x && r x)) f xs ≡ total p f xs
  unfolding total remove count
  total-remove_ready q r [] e = omega arith
  total-remove_ready q r (x ∷ xs) e = ground (arith, total-remove_ready q r xs)

  -- An UPDATE that keeps the columns that the sum reads keeps the sum.
  pub total-update_keeps :
      (q : A → Bool) (g : A → A)
      → ((x : A) → p (g x) ≡ p x)
      → ((x : A) → f (g x) ≡ f x)
      → (xs : List A) → total p f (update q g xs) ≡ total p f xs
  unfolding total update
  total-update_keeps q g kp kf [] = refl
  total-update_keeps q g kp kf (x ∷ xs) =
      ground (arith, total-update_keeps q g kp kf xs, kp x, kf x)
