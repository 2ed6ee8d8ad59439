-- ===== src/Service/Objects/Failures.antt =====
-- Deletion and rotation where a store or a transaction fails.
use rosemary_virsree.Prelude.{ℕ, ◌≡◌, inl, inr, true, arith}
use rosemary_virsree.Prelude.Text.{Str}
use rosemary_virsree.Prelude.Results.{Error, ok, err, Result-cases}
use rosemary_virsree.Model.{Object}
use rosemary_virsree.Store.Commit.{get_object, delete_object}
use rosemary_virsree.Service.World.{Remote, World}
use rosemary_virsree.Service.Backends.{Manager, backend}
use rosemary_virsree.Service.Objects.{delete, rotate_object_key}

module _ {W : Type 0} (remote : Remote W) (m : Manager) where
  -- Where RotateObjectKey returns an error, whatever the stores answer, the database is as it was: the
  -- object's row still has its old physical key.
  pub rotate_object_key-error_keeps :
      (now : ℕ) (bucket key : Str) (w w' : World W) (e : Error)
      → rotate_object_key remote m now bucket key w ≡ (err e, w')
      → w'.db ≡ w.db
  unfolding rotate_object_key
  rotate_object_key-error_keeps now bucket key w w' e h = ground arith

  -- Where the service's Delete succeeds, the store had deleted the file of the object at the key, and
  -- then DeleteObject has run on the object.
  pub delete-deleted :
      (bucket key : Str) (w w' : World W)
      → delete remote m bucket key w ≡ (ok tt, w')
      → (o : Object) × (b : Str) × (get_object bucket key w.db ≡ ok o)
        × (backend m o.source_id ≡ ok b)
        × (remote.delete b o.physical_key w.remote ≡ (true, w'.remote))
        × (delete_object o.id w.db ≡ ok w'.db)
  unfolding delete
  delete-deleted bucket key w w' h = elim (Result-cases (get_object bucket key w.db)) [
    | inr (e, missing) ↦ absurd (ground arith)
    | inl (o, found) ↦ elim (Result-cases (backend m o.source_id)) [
      | inr (e, missing) ↦ absurd (ground arith)
      | inl (b, backed) ↦ (o, b, found, backed, ground arith, ground arith)
    ]
  ]
