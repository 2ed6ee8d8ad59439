-- ===== src/Prelude/Effects.antt =====
-- Go functions that call a remote service: the state that the service keeps is passed along.
pub mod Leaves
use rosemary_virsree.Prelude.Results.{Error, Result, ok, err}
use mathlib.Core.Path.{◌≡◌, refl}
use mathlib.Core.Bool.{Bool, true, false}
use native.Mathlib.Omega.{arith}

abbrev pub Effect : Type 0 → Type 0 → Type 0
Effect W A = W → Result A × W

module _ {W A : Type 0} where
  abbrev pub pure : A → Effect W A
  pure a w = (ok a, w)

  abbrev pub fail : Error → Effect W A
  fail e w = (err e, w)

module _ {W A B : Type 0} where
  abbrev pub proceed : (A → Effect W B) → Result A × W → Result B × W
  proceed next (ok a, w) = next a w
  proceed next (err e, w) = (err e, w)

  infixl 5 ◌>>=◌
  abbrev pub ◌>>=◌ : Effect W A → (A → Effect W B) → Effect W B
  (m >>= next) w = proceed next (m w)

  infixl 5 ◌>>◌
  abbrev pub ◌>>◌ : Effect W A → Effect W B → Effect W B
  m >> next = m >>= λ _. next

module _ {W : Type 0} where
  -- `if b { return err }`
  abbrev pub require : Bool → Error → Effect W (Unit {0})
  require true e w = (err e, w)
  require false e w = (ok tt, w)

module _ {W A : Type 0} where
  -- `_ = f()`
  abbrev pub ignore : Effect W A → Effect W (Unit {0})
  ignore m w = (ok tt, (m w).1)

  -- `defer undo()`, for what comes after it
  abbrev pub finally : Effect W (Unit {0}) → Effect W A → Effect W A
  finally undo m w = ((m w).0, (undo (m w).1).1)

-- A chain that returns has returned at its first step.
pub proceed-ok :
    {W A B : Type 0} (next : A → Effect W B) (r : Result A × W) {y : B} {w' : W}
    → proceed next r ≡ (ok y, w')
    → (x : A) × (w : W) × (r ≡ (ok x, w)) × (next x w ≡ (ok y, w'))
proceed-ok next (ok x, w) h = (x, w, refl, h)
proceed-ok next (err e, w) h = absurd (ground arith)
