-- ===== src/Prelude/Sorting/Finds.antt =====
-- Finding rows in a sorted table.
use rosemary_virsree.Prelude.Tests.{Bool-cases}
use rosemary_virsree.Prelude.Table.{find, count}
use rosemary_virsree.Prelude.Sorting.{insert, sort}
use rosemary_virsree.Prelude.Sorting.Counts.{count-sort}
use Prim.Native.Nat.{◌≤◌}
use mathlib.Core.Path.{◌≡◌, refl, ◌∙◌}
use mathlib.Core.Logic.{inl, inr}
use mathlib.Core.Bool.{Bool, true, false}
use mathlib.Core.Option.{some}
use mathlib.Core.List.{List, [], ◌∷◌}
use native.Mathlib.Omega.{arith}

module _ {A : Type 0} (p : A → Bool) (before : A → A → Bool) where
  insert-miss : (x : A) (xs : List A) → p x ≡ false → find p (insert before x xs) ≡ find p xs
  unfolding insert find
  insert-miss x [] h = ground (arith, h)
  insert-miss x (y ∷ ys) h = ground (arith, h, insert-miss x ys)

  insert-hit :
      (x : A) (xs : List A) → p x ≡ true → count p xs ≡ 0 → find p (insert before x xs) ≡ some x
  unfolding insert find count
  insert-hit x [] h k = ground (arith, h)
  insert-hit x (y ∷ ys) h k = ground (arith, h, k, insert-hit x ys)

  pub find-sort : (xs : List A) → count p xs ≤ 1 → find p (sort before xs) ≡ find p xs
  unfolding sort find count
  find-sort [] h = refl
  find-sort (x ∷ xs) h = elim (Bool-cases (p x)) [
    | inl hit ↦
        rw hit (insert-hit x (sort before xs) hit (count-sort p before xs ∙ ground (arith, h, hit)))
    | inr miss ↦
        rw miss (insert-miss x (sort before xs) miss ∙ find-sort xs (ground (arith, h, miss)))
  ]
