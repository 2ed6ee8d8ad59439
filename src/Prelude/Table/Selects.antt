-- ===== src/Prelude/Table/Selects.antt =====
-- SELECT of a selection, and counts of selections.
use rosemary_virsree.Prelude.Table.{select, count}
use Prim.Native.Nat.{◌+◌, ◌≤◌}
use mathlib.Core.Path.{◌≡◌, refl}
use mathlib.Core.Bool.{Bool, true, not, ◌&&◌}
use mathlib.Core.List.{List, [], ◌∷◌, ◌++◌}
use native.Mathlib.Omega.{arith}

pub select_all :
    {A : Type 0} (p : A → Bool) (xs : List A) → count (λ x. not (p x)) xs ≡ 0 → select p xs ≡ xs
unfolding select count
select_all p [] h = refl
select_all p (x ∷ xs) h = ground (arith, select_all p xs)

pub count-select :
    {A : Type 0} (p q : A → Bool) (xs : List A)
    → ((x : A) → q x ≡ true → p x ≡ true)
    → (r : A → Bool) → count r (select q xs) ≤ count r (select p xs)
unfolding count select
count-select p q [] stronger r = omega arith
count-select p q (x ∷ xs) stronger r = ground (arith, count-select p q xs stronger r, stronger x)

pub select-select :
    {A : Type 0} (p q : A → Bool) (xs : List A)
    → select q (select p xs) ≡ select (λ x. p x && q x) xs
unfolding select
select-select p q [] = refl
select-select p q (x ∷ xs) = ground (arith, select-select p q xs)

pub select-same :
    {A : Type 0} (p q : A → Bool) (xs : List A) → ((x : A) → p x ≡ q x) → select p xs ≡ select q xs
unfolding select
select-same p q [] h = refl
select-same p q (x ∷ xs) h = ground (arith, select-same p q xs h, h x)

pub count-select_implied :
    {A : Type 0} (p q : A → Bool) (xs : List A)
    → ((x : A) → p x ≡ true → q x ≡ true)
    → count (λ x. not (q x)) (select p xs) ≡ 0
unfolding count select
count-select_implied p q [] h = refl
count-select_implied p q (x ∷ xs) h = ground (arith, count-select_implied p q xs h, h x)

pub count-append :
    {A : Type 0} (p : A → Bool) (xs ys : List A) → count p (xs ++ ys) ≡ count p xs + count p ys
unfolding count
count-append p [] ys = ground arith
count-append p (x ∷ xs) ys = ground (arith, count-append p xs ys)
