-- ===== src/Prelude/Table/Keyed.antt =====
-- Tables with a text column as their primary key.
use rosemary_virsree.Prelude.Tests.{Option-cases, if◌then◌else◌}
use rosemary_virsree.Prelude.Text.{Str, str_eq, str_eq_iff, str_eq_comm}
use rosemary_virsree.Prelude.Table.{find, any, update, count}
use rosemary_virsree.Prelude.Table.Rows.{find-holds, find-update, count-any-false}
use Prim.Native.Nat.{◌≤◌}
use mathlib.Core.Path.{◌≡◌, ap}
use mathlib.Core.Logic.{inl, inr}
use mathlib.Core.Bool.{Bool, false}
use mathlib.Core.Option.{some}
use mathlib.Core.List.{List, ◌∷◌}
use native.Mathlib.Omega.{arith}

module _ {ℓ} {A : Type ℓ} (key : A → Str) where
  abbrev pub keyed : Str → A → Bool
  keyed k x = str_eq (key x) k

  pub key-find : (k : Str) (xs : List A) (x : A) → find (keyed k) xs ≡ some x → key x ≡ k
  key-find k xs x e = (str_eq_iff (key x) k).0 (find-holds (keyed k) xs x e)

  -- A row that is found after an UPDATE of one key was found before, and has been changed if it is
  -- the row with that key.
  pub found-update :
      (f : A → A)
      → ((x : A) → key (f x) ≡ key x)
      → (j i : Str) (xs : List A) (y : A) → find (keyed i) (update (keyed j) f xs) ≡ some y
      → (x : A) × (find (keyed i) xs ≡ some x) × (y ≡ (if str_eq j i then f x else x))
  found-update f keeps j i xs y e =
      let after = find-update (keyed i) (keyed j) f (λ x. ap (λ k. str_eq k i) (keeps x)) xs in
      elim (Option-cases (find (keyed i) xs)) [
        | inl missing ↦ absurd (cc)
        | inr (x, e') ↦ (x, e', ground (arith, key-find i xs x, str_eq_comm i j))
      ]

  -- INSERT after the primary key has been found free.
  pub count-insert :
      (x : A) (xs : List A)
      → any (keyed (key x)) xs ≡ false
      → (k : Str) → count (keyed k) xs ≤ 1
      → count (keyed k) (x ∷ xs) ≤ 1
  unfolding count
  count-insert x xs free k u =
      ground (arith, str_eq_iff (key x) k, count-any-false (keyed (key x)) xs)
