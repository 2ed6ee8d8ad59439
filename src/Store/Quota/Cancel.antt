-- ===== src/Store/Quota/Cancel.antt =====
-- CancelUpload and ForgetUploadGrant after ReserveObject.
use rosemary_virsree.Prelude.{ℕ, ◌≡◌, refl, List, [], ◌∷◌, arith, if◌then◌else◌}
use rosemary_virsree.Prelude.Int.{ℤ}
use rosemary_virsree.Prelude.Text.{Str, str_eq, str_eq_refl}
use rosemary_virsree.Prelude.Table.{find, remove, update}
use rosemary_virsree.Prelude.Table.Rows.{count-any-false, remove-count_zero}
use rosemary_virsree.Prelude.Results.{ok}
use rosemary_virsree.Model.{Bucket, StorageSource, Object, Db}
use rosemary_virsree.Store.Columns.{bucket_is, upload_is, update_source}
use rosemary_virsree.Store.Upload.{
  reserve_object, reserve_bucket, reserve_source, to_reserve, old_source,
}
use rosemary_virsree.Store.Commit.{cancel_upload, unreserve_bucket, unreserve_source}
use rosemary_virsree.Store.Deletion.{forget_upload_grant}
use rosemary_virsree.Store.Accounts.Reserve.{reserve_object-Reserves}

buckets_back :
    (i : Str) (n : ℕ) (bs : List Bucket)
    → update (bucket_is i) (unreserve_bucket n) (update (bucket_is i) (reserve_bucket n) bs) ≡ bs
unfolding update
buckets_back i n [] = refl
buckets_back i n (b ∷ bs) = ground (arith, buckets_back i n bs)

sources_back :
    (i : Str) (n : ℕ) (ss : List StorageSource)
    → update_source i (unreserve_source n) (update_source i (reserve_source n) ss) ≡ ss
unfolding update
sources_back i n [] = ground arith
sources_back i n (s ∷ ss) = ground (arith, sources_back i n ss)

-- After a successful ReserveObject, CancelUpload of its upload succeeds, and with ForgetUploadGrant
-- after it the database is again the one before the reservation.
pub reserve-cancel-forget :
    (o : Object) (expires : ℕ) (objects uploads : ℤ) (db db' : Db)
    → reserve_object o expires objects uploads db ≡ ok db'
    → (db'' : Db) × (cancel_upload o.id db' ≡ ok db'') × (forget_upload_grant o.id db'' ≡ db)
unfolding cancel_upload forget_upload_grant find remove
reserve-cancel-forget o expires objects uploads db db' h =
    let r = reserve_object-Reserves o expires objects uploads db db' h in
    let n = to_reserve o.size r.old in
    let k : ℕ = if str_eq (old_source r.old) o.source_id then to_reserve o.size r.old else o.size in
    let no_upload =
      remove-count_zero (upload_is o.id) db.uploads
        (count-any-false (upload_is o.id) db.uploads (ground (arith, r.fresh))) in
    let no_grant =
      remove-count_zero (λ g. str_eq g.id o.id) db.upload_grants
        (count-any-false (λ g. str_eq g.id o.id) db.upload_grants (ground (arith, r.fresh))) in
    rw r.writes (
      record db {
        upload_grants =
            record { id = o.id; bucket_id = o.bucket_id; expires_at = expires } ∷ db.upload_grants;
      },
      ground (
        arith,
        str_eq_refl o.id,
        no_upload,
        buckets_back o.bucket_id n db.buckets,
        sources_back o.source_id k db.sources,
      ),
      ground (arith, str_eq_refl o.id, no_grant),
    )
