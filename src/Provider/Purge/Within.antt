-- ===== src/Provider/Purge/Within.antt =====
-- Loops that end within their fuel, by a measure of the state.
use rosemary_virsree.Prelude.{ℕ, ◌<◌, ◌≡◌, ◌≢◌, refl, Bool, true, false, arith}
use rosemary_virsree.Prelude.Effects.{Effect, proceed}
use rosemary_virsree.Prelude.Results.{Result, ok, err, out_of_fuel}
use rosemary_virsree.Provider.Purge.{answered}

-- The loop has not run out of fuel.
abbrev pub InTime : {W : Type 0} → Result (Unit {0}) × W → Type 0
InTime r = r.0 ≢ err out_of_fuel

module _ {W : Type 0} (measure : W → ℕ) where
  -- The loop has not run out of fuel, and where it succeeds the measure is below `n`.
  abbrev pub Below : ℕ → Result (Unit {0}) × W → Type 0
  Below n r = InTime r × (r.0 ≡ ok tt → measure r.1 < n)

  pub proceed-InTime :
      (next : Effect W (Unit {0})) (n : ℕ) (r : Result (Unit {0}) × W)
      → Below n r
      → ((s : W) → measure s < n → InTime (next s))
      → InTime (proceed (λ _. next) r)
  proceed-InTime next n (ok tt, s) below then = then s (below.1 refl)
  proceed-InTime next n (err e, s) below then = below.0

  pub proceed-Below :
      (next : Effect W (Unit {0})) (n : ℕ) (r : Result (Unit {0}) × W)
      → Below n r
      → ((s : W) → measure s < n → Below n (next s))
      → Below n (proceed (λ _. next) r)
  proceed-Below next n (ok tt, s) below then = then s (below.1 refl)
  proceed-Below next n (err e, s) below then = (below.0, λ went. absurd (ground arith))

  pub answered-Below :
      (n : ℕ) (r : Bool × W) → (r.0 ≡ true → measure r.1 < n) → Below n (answered r)
  answered-Below n (true, s) h = (ground arith, λ _. h refl)
  answered-Below n (false, s) h = (ground arith, λ went. absurd (ground arith))
