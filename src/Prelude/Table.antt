-- ===== src/Prelude/Table.antt =====
-- The SQL statements that the program runs on one table, over a list of rows: SELECT of a row,
-- EXISTS, count(*), sum(…), DELETE, UPDATE. A table is a set of rows; INSERT adds at the front.
pub mod Sums
pub mod Rows
pub mod Keyed
pub mod Selects
use rosemary_virsree.Prelude.Tests.{if◌then◌else◌}
use Prim.Native.Nat.{ℕ, ◌+◌}
use mathlib.Core.Bool.{Bool, false, ◌||◌}
use mathlib.Core.Option.{Option, none, some}
use mathlib.Core.List.{List, [], ◌∷◌}

module _ {ℓ} {A : Type ℓ} where
  -- SELECT … WHERE p, the row that QueryRow scans
  unfoldable pub find : (A → Bool) → List A → Option A
  find p [] = none
  find p (x ∷ xs) = if p x then some x else find p xs

  -- EXISTS(SELECT 1 … WHERE p)
  unfoldable pub any : (A → Bool) → List A → Bool
  any p [] = false
  any p (x ∷ xs) = p x || any p xs

  -- SELECT … WHERE p, all rows
  unfoldable pub select : (A → Bool) → List A → List A
  select p [] = []
  select p (x ∷ xs) = let rest = select p xs in if p x then x ∷ rest else rest

  -- DELETE … WHERE p
  unfoldable pub remove : (A → Bool) → List A → List A
  remove p [] = []
  remove p (x ∷ xs) = let rest = remove p xs in if p x then rest else x ∷ rest

  -- UPDATE … SET f WHERE p
  unfoldable pub update : (A → Bool) → (A → A) → List A → List A
  update p f [] = []
  update p f (x ∷ xs) = (if p x then f x else x) ∷ update p f xs

  -- COALESCE(sum(f), 0) … WHERE p
  unfoldable pub total : (A → Bool) → (A → ℕ) → List A → ℕ
  total p f [] = 0
  total p f (x ∷ xs) = (if p x then f x else 0) + total p f xs

  -- count(*) … WHERE p
  unfoldable pub count : (A → Bool) → List A → ℕ
  count p [] = 0
  count p (x ∷ xs) = (if p x then 1 else 0) + count p xs
