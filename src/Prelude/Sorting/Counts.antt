-- ===== src/Prelude/Sorting/Counts.antt =====
-- Sorting keeps the number of rows of each kind.
use rosemary_virsree.Prelude.Tests.{if◌then◌else◌}
use rosemary_virsree.Prelude.Table.{count}
use rosemary_virsree.Prelude.Sorting.{insert, sort}
use Prim.Native.Nat.{◌+◌}
use mathlib.Core.Path.{◌≡◌, refl}
use mathlib.Core.Bool.{Bool}
use mathlib.Core.List.{List, [], ◌∷◌}
use native.Mathlib.Omega.{arith}

module _ {ℓ} {A : Type ℓ} (p : A → Bool) where
  pub count-insert_sorted :
      (before : A → A → Bool) (x : A) (xs : List A)
      → count p (insert before x xs) ≡ (if p x then 1 else 0) + count p xs
  unfolding count insert
  count-insert_sorted before x [] = refl
  count-insert_sorted before x (y ∷ ys) = ground (arith, count-insert_sorted before x ys)

  pub count-sort : (before : A → A → Bool) (xs : List A) → count p (sort before xs) ≡ count p xs
  unfolding count sort
  count-sort before [] = refl
  count-sort before (x ∷ xs) =
      ground (arith, count-insert_sorted before x (sort before xs), count-sort before xs)
