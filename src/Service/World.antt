-- ===== src/Service/World.antt =====
-- The state that a request of internal/service works on, and the backends of internal/provider,
-- which talk to S3 and WebDAV servers: a parameter.
use rosemary_virsree.Prelude.{ℕ, ◌≡◌, refl, Bool, true, false, Option, arith}
use rosemary_virsree.Prelude.Text.{Str}
use rosemary_virsree.Prelude.Results.{Error, Result, ok, err, remote_failed}
use rosemary_virsree.Model.{Db}

-- provider.Head
pub record Head : Type 0 where
  pub size : ℕ
  pub etag : Str

-- The operations of provider.Backend on the remote stores, whose state is a `W`. The first argument
-- names the backend by its storage source; the flag of an effect says that it succeeded.
pub record Remote (W : Type 0) : Type 0 where
  pub kind : Str → Str
  pub head : Str → Str → W → Option Head
  pub copy : Str → Str → Str → W → Bool × W
  pub delete : Str → Str → W → Bool × W
  pub purge_prefix : Str → Str → W → Bool × W
  pub presign : Str → Str → W → Option Str

pub record World (W : Type 0) : Type 0 where
  pub db : Db
  pub remote : W

abbrev pub Action : Type 0 → Type 0 → Type 0
Action W A = World W → Result A × World W

module _ {W A : Type 0} where
  abbrev pub pure : A → Action W A
  pure a w = (ok a, w)

  abbrev pub fail : Error → Action W A
  fail e w = (err e, w)

  abbrev pub lift : Result A → Action W A
  lift r w = (r, w)

  -- A query of the database.
  abbrev pub query : (Db → Result A) → Action W A
  query f w = (f w.db, w)

  abbrev pub stored : World W → Result (A × Db) → Result A × World W
  stored w (ok (a, db)) = (ok a, record w { db = db })
  stored w (err e) = (err e, w)

  -- A transaction with a result.
  abbrev pub transact_with : (Db → Result (A × Db)) → Action W A
  transact_with f w = stored w (f w.db)

  abbrev pub undone : Action W (Unit {0}) → Result A × World W → Result A × World W
  undone undo (ok a, w) = (ok a, w)
  undone undo (err e, w) = (err e, (undo w).1)

  -- The action, and where it returns an error `undo`, whose own result is dropped.
  abbrev pub or_undo : Action W A → Action W (Unit {0}) → Action W A
  or_undo m undo w = undone undo (m w)

module _ {W A B : Type 0} where
  abbrev pub proceed : (A → Action W B) → Result A × World W → Result B × World W
  proceed next (ok a, w) = next a w
  proceed next (err e, w) = (err e, w)

  infixl 5 ◌>>=◌
  abbrev pub ◌>>=◌ : Action W A → (A → Action W B) → Action W B
  (m >>= next) w = proceed next (m w)

  infixl 5 ◌>>◌
  abbrev pub ◌>>◌ : Action W A → Action W B → Action W B
  m >> next = m >>= λ _. next

module _ {W : Type 0} where
  abbrev pub require : Bool → Error → Action W (Unit {0})
  require true e w = (err e, w)
  require false e w = (ok tt, w)

  abbrev pub transacted : World W → Result Db → Result (Unit {0}) × World W
  transacted w (ok db) = (ok tt, record w { db = db })
  transacted w (err e) = (err e, w)

  -- A transaction without a result.
  abbrev pub transact : (Db → Result Db) → Action W (Unit {0})
  transact f w = transacted w (f w.db)

  abbrev pub exec : (Db → Db) → Action W (Unit {0})
  exec f w = (ok tt, record w { db = f w.db })

  abbrev pub answered : World W → Bool × W → Result (Unit {0}) × World W
  answered w (true, r) = (ok tt, record w { remote = r })
  answered w (false, r) = (err remote_failed, record w { remote = r })

  -- An effect on a remote store.
  abbrev pub effect : (W → Bool × W) → Action W (Unit {0})
  effect f w = answered w (f w.remote)

  -- `_ = f()`
  abbrev pub ignore : Action W (Unit {0}) → Action W (Unit {0})
  ignore m w = (ok tt, (m w).1)

-- A chain that returns has returned at its first step.
pub proceed-ok :
    {W A B : Type 0} (next : A → Action W B) (r : Result A × World W) {y : B} {w' : World W}
    → proceed next r ≡ (ok y, w')
    → (x : A) × (w : World W) × (r ≡ (ok x, w)) × (next x w ≡ (ok y, w'))
proceed-ok next (ok x, w) h = (x, w, refl, h)
proceed-ok next (err e, w) h = absurd (ground arith)
