-- ===== src/Service/Backup/Slots.antt =====
-- The slots of the backups.
use rosemary_virsree.Prelude.{ℕ, suc, ◌+◌, ◌*◌, ◌/◌, ◌%◌, ◌≤◌, ◌<◌, ◌≡◌, arith}
use native.Mathlib.Omega.{div_any}
use native.Mathlib.Nat.{mod-lt, mul-suc, mul-le-mul_left, lt_of_mul-lt-mul_left}
use rosemary_virsree.Store.Deletion.{second}
use rosemary_virsree.Service.Backup.{max, slot}

-- The number of the interval that a time falls into; an interval is at least a minute long.
abbrev pub window : ℕ → ℕ → ℕ
window interval now = now / second / max 60 (interval / second)

-- Numbers with the same remainder are a whole number of moduli apart.
remainder_apart : (a b r : ℕ) → a % r ≡ b % r → a < b → a + r ≤ b
remainder_apart a b r same below =
    let quotients : a / r < b / r =
      lt_of_mul-lt-mul_left r (omega (arith, div_any a r, div_any b r, same, below)) in
    let product : r * suc (a / r) ≤ r * (b / r) = mul-le-mul_left r quotients in
    omega (arith, div_any a r, div_any b r, same, product, mul-suc r (a / r))

-- A backup goes to one of the `retention` slots, of which there is at least one, and where a later
-- interval comes to the slot of an earlier one, at least `retention` intervals lie between them: no
-- file of the last `retention` intervals is overwritten.
pub slot_kept :
    (interval retention n m : ℕ)
    → 0 < retention
    → window interval n < window interval m
    → slot interval retention n ≡ slot interval retention m
    → (slot interval retention m < retention) × (window interval n + retention ≤ window interval m)
unfolding slot
slot_kept interval retention n m h below same = (
  mod-lt (window interval m) h,
  remainder_apart (window interval n) (window interval m) retention same below,
)
