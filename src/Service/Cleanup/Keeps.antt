-- ===== src/Service/Cleanup/Keeps.antt =====
-- The cleanup of one bucket keeps its rows until every store has been purged.
use rosemary_virsree.Prelude.{ℕ, ◌≤◌, ◌<◌, ◌≡◌, refl, ◌⊎◌, Bool, false, List, [], ◌∷◌, arith}
use rosemary_virsree.Prelude.Text.{Str}
use rosemary_virsree.Prelude.Results.{Error, ok, err}
use rosemary_virsree.Store.Deletion.{finish_bucket_deletion}
use rosemary_virsree.Service.World.{Remote, World}
use rosemary_virsree.Service.Backends.{Manager}
use rosemary_virsree.Service.Cleanup.{
  backends, prefixes, purge_each, purge_all, sweep_bucket_namespaces, clean_bucket,
}

module _ {W : Type 0} (remote : Remote W) (m : Manager) where
  purge_each_keeps :
      (s : Str) (ps : List Str) (w : World W) → (purge_each remote m s ps w).1.db ≡ w.db
  unfolding purge_each
  purge_each_keeps s [] w = refl
  purge_each_keeps s (p ∷ ps) w =
      ground
        (arith, purge_each_keeps s ps (record w { remote = (remote.purge_prefix s p w.remote).1 }))

  purge_all_keeps : (ss ps : List Str) (w : World W) → (purge_all remote m ss ps w).1.db ≡ w.db
  unfolding purge_all
  purge_all_keeps [] ps w = refl
  purge_all_keeps (s ∷ ss) ps w =
      ground (arith, purge_each_keeps s ps w, purge_all_keeps ss ps (purge_each remote m s ps w).1)

  sweep_keeps :
      (id : Str) (staging : Bool) (w : World W)
      → (sweep_bucket_namespaces remote m id staging w).1.db ≡ w.db
  unfolding sweep_bucket_namespaces
  sweep_keeps id staging w =
      ground (arith, purge_all_keeps (backends remote m w.db) (prefixes id staging) w)

  -- The cleanup of a bucket that fails leaves the database as it was, whatever the stores answer:
  -- the bucket's rows stay, so that the cleanup can be tried again.
  pub clean_bucket-error_keeps :
      (now : ℕ) (id : Str) (after : ℕ) (w w' : World W) (e : Error)
      → clean_bucket remote m now id after w ≡ (err e, w')
      → w'.db ≡ w.db
  unfolding clean_bucket
  clean_bucket-error_keeps now id after w w' e h = ground (arith, sweep_keeps id false w)

  -- What a cleanup that succeeds has run.
  pub clean_bucket-ran :
      (now : ℕ) (id : Str) (after : ℕ) (w w' : World W)
      → clean_bucket remote m now id after w ≡ (ok tt, w')
      → (purge_all remote m (backends remote m w.db) (prefixes id false) w
          ≡ (ok tt, record w { remote = w'.remote }))
        × (((now < after) × (w'.db ≡ w.db))
            ⊎ ((after ≤ now) × (finish_bucket_deletion now id w.db ≡ ok w'.db)))
  unfolding clean_bucket sweep_bucket_namespaces
  clean_bucket-ran now id after w w' h =
      ground (arith, purge_all_keeps (backends remote m w.db) (prefixes id false) w)
