-- ===== src/Prelude/Int.antt =====
-- Go's int64: integers over the native numbers, and the wrap-around of a 64-bit result.
use rosemary_virsree.Prelude.Tests.{ltb, leb, if◌then◌else◌}
use Prim.Native.Nat.{ℕ, suc, ◌+◌, ◌-◌, ◌%◌, ◌^◌, ◌≤◌, ◌<◌}
use mathlib.Core.Path.{◌≡◌}
use mathlib.Core.Bool.{Bool}
use native.Mathlib.Omega.{arith}

-- `negsuc n` is -(n + 1).
pub data ℤ : Type 0 where
  pos : ℕ → ℤ
  negsuc : ℕ → ℤ

abbrev pub pos_part : ℤ → ℕ
pos_part (pos n) = n
pos_part (negsuc n) = 0

abbrev pub neg_part : ℤ → ℕ
neg_part (pos n) = 0
neg_part (negsuc n) = suc n

-- a - b, as an integer.
abbrev pub sub_ℕ : ℕ → ℕ → ℤ
sub_ℕ a b = if leb b a then pos (a - b) else negsuc (b - a - 1)

infixl 65 ◌+ℤ◌
infix 50 ◌≤ℤ◌
unfoldable pub ◌+ℤ◌ : ℤ → ℤ → ℤ
a +ℤ b = sub_ℕ (pos_part a + pos_part b) (neg_part a + neg_part b)

abbrev pub ◌≤ℤ◌ : ℤ → ℤ → Type 0
a ≤ℤ b = pos_part a + neg_part b ≤ pos_part b + neg_part a

abbrev pub ltb_ℤ : ℤ → ℤ → Bool
ltb_ℤ a b = ltb (pos_part a + neg_part b) (pos_part b + neg_part a)

abbrev pub leb_ℤ : ℤ → ℤ → Bool
leb_ℤ a b = leb (pos_part a + neg_part b) (pos_part b + neg_part a)

abbrev pub two_63 : ℕ
two_63 = 2 ^ 63

abbrev pub two_64 : ℕ
two_64 = 2 ^ 64

-- The 64 bits of an integer in two's complement, and the integer that 64 bits stand for.
abbrev pub bits : ℤ → ℕ
bits (pos n) = n % two_64
bits (negsuc n) = two_64 - 1 - n % two_64

abbrev pub of_bits : ℕ → ℤ
of_bits m = if ltb m two_63 then pos m else negsuc (two_64 - 1 - m)

-- The value of an int64 expression whose exact value is `z`.
unfoldable pub wrap64 : ℤ → ℤ
wrap64 z = of_bits (bits z)

-- SQL's MAX(0, a - b) on numbers that are not negative.
abbrev pub max0_sub : ℕ → ℕ → ℕ
max0_sub a b = if leb b a then a - b else 0

pub wrap64-pos : (n : ℕ) → n < two_63 → wrap64 (pos n) ≡ pos n
unfolding wrap64
wrap64-pos n h = ground arith

-- A sum in [2^63, 2^64) wraps to a negative int64.
pub wrap64_negative : (n : ℕ) → two_63 ≤ n → n < two_64 → wrap64 (pos n) ≡ negsuc (two_64 - 1 - n)
unfolding wrap64
wrap64_negative n h k = ground arith

-- Wrapping never leaves the range of an int64.
pub wrap64_range : (z : ℤ) → (pos_part (wrap64 z) < two_63) × (neg_part (wrap64 z) ≤ two_63)
unfolding wrap64
wrap64_range z = ground arith

pub max0_sub_lem : (a b : ℕ) → max0_sub a b ≡ a - b
max0_sub_lem a b = ground arith

pub +ℤ_parts :
    (a b : ℤ)
    → pos_part (a +ℤ b) + neg_part a + neg_part b ≡ neg_part (a +ℤ b) + pos_part a + pos_part b
unfolding ◌+ℤ◌
+ℤ_parts a b = ground arith

pub eq_of_parts : (a b : ℤ) → pos_part a + neg_part b ≡ pos_part b + neg_part a → a ≡ b
eq_of_parts a b h = ground arith

pub ruleset int_laws = (arith, +ℤ_parts, eq_of_parts)

-- Where the exact value is an int64 there is no wrap-around.
pub wrap64_exact : (z : ℤ) → pos_part z < two_63 → neg_part z ≤ two_63 → wrap64 z ≡ z
unfolding wrap64
wrap64_exact z h k = ground arith

pub +ℤ_comm : (a b : ℤ) → a +ℤ b ≡ b +ℤ a
+ℤ_comm a b = omega int_laws

pub +ℤ_assoc : (a b c : ℤ) → a +ℤ b +ℤ c ≡ a +ℤ (b +ℤ c)
+ℤ_assoc a b c = omega int_laws

pub zero_+ℤ : (a : ℤ) → pos 0 +ℤ a ≡ a
zero_+ℤ a = omega int_laws
