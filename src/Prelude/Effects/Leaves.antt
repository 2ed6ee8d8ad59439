-- ===== src/Prelude/Effects/Leaves.antt =====
-- Effects that leave a view of the state as it was.
use rosemary_virsree.Prelude.Results.{Error, Result, ok, err}
use rosemary_virsree.Prelude.Effects.{Effect, proceed, require, finally, ◌>>=◌}
use mathlib.Core.Path.{◌≡◌, refl, ◌∙◌}
use mathlib.Core.Bool.{Bool, true, false}

module _ {W C : Type 0} (view : W → C) where
  abbrev pub Leaves : {A : Type 0} → Effect W A → Type 0
  Leaves m = (w : W) → view (m w).1 ≡ view w

  pub proceed-Leaves :
      {A B : Type 0} (next : A → Effect W B)
      → ((a : A) → Leaves (next a))
      → (r : Result A × W) → view (proceed next r).1 ≡ view r.1
  proceed-Leaves next kept (ok a, w) = kept a w
  proceed-Leaves next kept (err e, w) = refl

  pub >>=-Leaves :
      {A B : Type 0} (m : Effect W A) (next : A → Effect W B)
      → Leaves m
      → ((a : A) → Leaves (next a))
      → Leaves (m >>= next)
  >>=-Leaves m next first kept w = proceed-Leaves next kept (m w) ∙ first w

  pub require-Leaves : (b : Bool) (e : Error) → Leaves (require b e)
  require-Leaves true e w = refl
  require-Leaves false e w = refl

  pub finally-Leaves :
      {A : Type 0} (undo : Effect W (Unit {0})) (m : Effect W A)
      → Leaves undo
      → Leaves m
      → Leaves (finally undo m)
  finally-Leaves undo m last first w = last (m w).1 ∙ first w
