-- ===== src/Store/Deletion/Active.antt =====
-- While a bucket is being deleted, nothing can be reserved, committed or signed in it.
use rosemary_virsree.Prelude.{ℕ, ◌≡◌, inl, inr, true, some, arith, Option-cases}
use rosemary_virsree.Prelude.Int.{ℤ}
use rosemary_virsree.Prelude.Text.{Str, str_eq}
use rosemary_virsree.Prelude.Table.{find, any}
use rosemary_virsree.Prelude.Table.Keyed.{key-find}
use rosemary_virsree.Prelude.Results.{ok, err, bucket_deleting}
use rosemary_virsree.Model.{AccessKey, Bucket, Object, Db}
use rosemary_virsree.Store.Columns.{bucket_is, deletion_of}
use rosemary_virsree.Store.Upload.{require_active_bucket, reserve_object}
use rosemary_virsree.Store.Commit.{commit_upload}
use rosemary_virsree.Store.Keys.{create_access_key, access_by_ak}

module _ (id : Str) (db : Db) (b : Bucket) (exists : find (bucket_is id) db.buckets ≡ some b)
    (deleting : any (deletion_of id) db.bucket_deletions ≡ true) where
  refused : require_active_bucket id db ≡ err bucket_deleting
  unfolding require_active_bucket
  refused = ground arith

  -- In a bucket that is being deleted, ReserveObject, CommitUpload and CreateAccessKey return
  -- ErrBucketDeleting, whatever their other arguments.
  pub deleting_refuses :
      (o : Object) (k : AccessKey) (expires now actual : ℕ) (objects uploads : ℤ) (etag : Str)
      → o.bucket_id ≡ id
      → k.bucket_id ≡ id
      → (reserve_object o expires objects uploads db ≡ err bucket_deleting)
        × (commit_upload now o etag actual db ≡ err bucket_deleting)
        × (create_access_key k db ≡ err bucket_deleting)
  unfolding reserve_object commit_upload create_access_key
  deleting_refuses o k expires now actual objects uploads etag home home' = ground arith

-- AccessByAK returns the row of the access key and the row of its bucket, which is not being deleted.
pub access_by_ak-active :
    (ak : Str) (db : Db) (k : AccessKey) (b : Bucket)
    → access_by_ak ak db ≡ ok (k, b)
    → (find (λ r. str_eq r.ak ak) db.access_keys ≡ some k)
      × (find (bucket_is k.bucket_id) db.buckets ≡ some b)
      × (k.ak ≡ ak)
      × (k.bucket_id ≡ b.id)
      × (require_active_bucket k.bucket_id db ≡ ok tt)
unfolding access_by_ak require_active_bucket
access_by_ak-active ak db k b h = elim (Option-cases (find (λ k. str_eq k.ak ak) db.access_keys)) [
  | inl missing ↦ absurd (ground arith)
  | inr (k', found) ↦ elim (Option-cases (find (bucket_is k'.bucket_id) db.buckets)) [
    | inl missing ↦ absurd (ground arith)
    | inr (b', home) ↦ ground (
      arith,
      key-find AccessKey.ak ak db.access_keys k' found,
      key-find Bucket.id k'.bucket_id db.buckets b' home,
    )
  ]
]
