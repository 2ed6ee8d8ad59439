-- ===== src/Service/Keys/Authenticate.antt =====
-- Authenticate.
use rosemary_virsree.Prelude.{◌≡◌, some, inl, inr, true, false, arith}
use rosemary_virsree.Prelude.Text.{Str, str_eq, str_eq_iff}
use rosemary_virsree.Prelude.Table.{find}
use rosemary_virsree.Store.Columns.{bucket_is}
use rosemary_virsree.Prelude.Results.{Result, ok, Result-cases}
use rosemary_virsree.Model.{Bucket, AccessKey}
use rosemary_virsree.Store.Upload.{require_active_bucket}
use rosemary_virsree.Store.Keys.{access_by_ak}
use rosemary_virsree.Store.Deletion.Active.{access_by_ak-active}
use rosemary_virsree.Service.World.{World}
use rosemary_virsree.Service.Keys.{has, authenticate}

module _ (trim_space to_lower : Str → Str) {W : Type 0} where
  -- Authenticate lets a caller in only with the key whose row has this access key id, and with the row of
  -- its bucket. The row says that the key is not revoked; the key grants the permission and opens to
  -- the secret, and the bucket is not being deleted. The database and the stores stay as they were.
  pub authenticate_sound :
      (unseal : Str → Result Str) (ak secret permission : Str) (w w' : World W) (k : AccessKey)
      (b : Bucket)
      → authenticate trim_space to_lower unseal ak secret permission w ≡ (ok (k, b), w')
      → (find (λ r. str_eq r.ak ak) w.db.access_keys ≡ some k)
        × (find (bucket_is k.bucket_id) w.db.buckets ≡ some b)
        × (k.ak ≡ ak)
        × (k.revoked ≡ false)
        × (unseal k.secret_cipher ≡ ok secret)
        × (has trim_space to_lower k.permissions permission ≡ true)
        × (k.bucket_id ≡ b.id)
        × (require_active_bucket k.bucket_id w.db ≡ ok tt)
        × (w' ≡ w)
  unfolding authenticate
  authenticate_sound unseal ak secret permission w w' k b h =
      elim (Result-cases (access_by_ak ak w.db)) [
        | inr (e, missing) ↦ absurd (ground arith)
        | inl (r, found) ↦ elim (Result-cases (unseal r.0.secret_cipher)) [
          | inr (e, sealed) ↦ absurd (ground arith)
          | inl (plain, opened) ↦
              ground (arith, access_by_ak-active ak w.db k b, str_eq_iff plain secret)
        ]
      ]
