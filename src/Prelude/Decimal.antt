-- ===== src/Prelude/Decimal.antt =====
-- strconv.ParseInt(s, 10, 64): the value, which is returned beside an error too, and whether the text
-- was a number in range.
use rosemary_virsree.Prelude.Tests.{ltb, leb, ◌==◌, if◌then◌else◌}
use rosemary_virsree.Prelude.Text.{Str}
use rosemary_virsree.Prelude.Int.{ℤ, pos, negsuc, sub_ℕ, two_63, two_64}
use Prim.Native.Nat.{ℕ, ◌+◌, ◌-◌, ◌*◌}
use mathlib.Core.Bool.{Bool, true, false, ◌&&◌}
use mathlib.Core.Option.{Option, none, some}
use mathlib.Core.List.{[], ◌∷◌}

abbrev pub is_digit : ℕ → Bool
is_digit c = leb 48 c && leb c 57

-- The number that the digits stand for, after those that made `n`. A number above 64 bits ends the scan.
unfoldable pub digits : ℕ → Str → Option ℕ
digits n [] = some n
digits n (c ∷ s) =
    let next = n * 10 + (c - 48) in
    let rest = digits next s in
    if is_digit c then (if ltb next two_64 then rest else some (two_64 - 1)) else none

-- Out of range the value is the nearest int64; where there is no number it is 0.
abbrev pub positive : Option ℕ → ℤ × Bool
positive none = (pos 0, false)
positive (some n) = if ltb n two_63 then (pos n, true) else (pos (two_63 - 1), false)

abbrev pub negative : Option ℕ → ℤ × Bool
negative none = (pos 0, false)
negative (some n) = if leb n two_63 then (sub_ℕ 0 n, true) else (negsuc (two_63 - 1), false)

abbrev pub unsigned : Str → Option ℕ
unfolding digits
unsigned [] = none
unsigned (c ∷ s) = digits 0 (c ∷ s)

unfoldable pub parse_int : Str → ℤ × Bool
unfolding digits
parse_int [] = (pos 0, false)
parse_int (c ∷ s) =
    if c == 43
    then positive (unsigned s)
    else (if c == 45 then negative (unsigned s) else positive (digits 0 (c ∷ s)))
