-- ===== src/Service/Uploads/Reserving.antt =====
-- BeginUpload's loop over the candidates.
use rosemary_virsree.Prelude.{ℕ, ◌≡◌, inl, inr, true, List, [], ◌∷◌, arith, Bool-cases}
use rosemary_virsree.Prelude.Int.{ℤ}
use rosemary_virsree.Prelude.Text.{Str, str_eq_refl}
use rosemary_virsree.Prelude.Table.{any}
use rosemary_virsree.Prelude.Results.{Error, ok, err, Result-cases}
use rosemary_virsree.Model.{Object}
use rosemary_virsree.Store.Upload.{reserve_object}
use rosemary_virsree.Service.World.{Remote, World}
use rosemary_virsree.Service.Backends.{Runtime, Manager, runtime_is}
use rosemary_virsree.Service.Uploads.{staged, reserve_on, is_capacity}

module _ {W : Type 0} (remote : Remote W) (m : Manager) where
  -- Where the loop over the candidates succeeds, it has reserved the upload on one of them by
  -- ReserveObject, in the bucket's staging namespace, and has not called a remote store.
  pub reserve_on-reserved :
      (bucket : Str) (o o' : Object) (expires : ℕ) (objects uploads : ℤ) (cs : List Runtime)
      (w w' : World W)
      → reserve_on remote m bucket o expires objects uploads cs w ≡ (ok o', w')
      → (o' ≡ staged remote m bucket o o'.source_id)
        × (any (runtime_is o'.source_id) cs ≡ true)
        × (reserve_object o' expires objects uploads w.db ≡ ok w'.db)
        × (w'.remote ≡ w.remote)
  unfolding reserve_on any
  reserve_on-reserved bucket o o' expires objects uploads [] w w' h = ground arith
  reserve_on-reserved bucket o o' expires objects uploads (c ∷ cs) w w' h =
      elim (Result-cases
        (reserve_object (staged remote m bucket o c.meta.id) expires objects uploads w.db)) [
          | inl (db, fits) ↦ ground (arith, str_eq_refl c.meta.id)
          | inr (e, refused) ↦ elim (Bool-cases (is_capacity e)) [
            | inl full ↦
                ground (arith, reserve_on-reserved bucket o o' expires objects uploads cs w w')
            | inr other ↦ ground arith
          ]
        ]

  -- Where no candidate takes the upload, the loop leaves the database and the stores as they were.
  pub reserve_on-error_keeps :
      (bucket : Str) (o : Object) (expires : ℕ) (objects uploads : ℤ) (cs : List Runtime)
      (w w' : World W) (e : Error)
      → reserve_on remote m bucket o expires objects uploads cs w ≡ (err e, w')
      → w' ≡ w
  unfolding reserve_on
  reserve_on-error_keeps bucket o expires objects uploads [] w w' e h = ground arith
  reserve_on-error_keeps bucket o expires objects uploads (c ∷ cs) w w' e h =
      ground (arith, reserve_on-error_keeps bucket o expires objects uploads cs w w' e)
