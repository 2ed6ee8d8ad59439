-- ===== src/Store/Quota/Commit.antt =====
-- CommitUpload against the quota of the bucket.
use rosemary_virsree.Prelude.{ℕ, ◌+◌, ◌≤◌, ◌<◌, ◌≡◌, refl, none, some, arith}
use rosemary_virsree.Prelude.Int.{pos}
use rosemary_virsree.Prelude.Text.{Str, str_eq_iff, str_eq_refl}
use rosemary_virsree.Prelude.Table.{find}
use rosemary_virsree.Prelude.Table.Keyed.{key-find}
use rosemary_virsree.Prelude.Table.Rows.{find-update}
use rosemary_virsree.Prelude.Table.Sums.{le-total-find}
use rosemary_virsree.Prelude.Results.{ok}
use rosemary_virsree.Model.{Bucket, Object, Upload, Db}
use rosemary_virsree.Store.Columns.{bucket_is, upload_is, object_at, upload_in}
use rosemary_virsree.Store.Commit.{Committed, committed, old_size, settle_bucket, commit_upload}
use rosemary_virsree.Store.Accounts.{Consistent}
use rosemary_virsree.Store.Accounts.Commit.{commit_upload-Commits}
use rosemary_virsree.Store.Accounts.Upsert.{old_size-le_in}

module _ (now : ℕ) (upload : Object) (etag : Str) (actual : ℕ) (db : Db) (r : Committed)
    (b : Bucket) (u : Upload) (c : Consistent db)
    (home : find (bucket_is upload.bucket_id) db.buckets ≡ some b)
    (row : find (upload_is upload.id) db.uploads ≡ some u)
    (same_bucket : u.bucket_id ≡ upload.bucket_id)
    (committed_ok : commit_upload now upload etag actual db ≡ ok r) where
  -- In a database with right accounts, a CommitUpload that succeeds for a pending upload of the bucket
  -- moves its reservation into the used bytes exactly: the used bytes lose the size of the replaced
  -- object and gain the actual size, and the reserved bytes lose what the upload had reserved, with
  -- nothing cut off at 0. The bucket's row changes in its two counters alone.
  pub commit_upload-moves :
      (b' : Bucket) × (find (bucket_is upload.bucket_id) r.db.buckets ≡ some b')
      × (b'.used_bytes + old_size (find (object_at upload.bucket_id upload.logical_key) db.objects)
          ≡ b.used_bytes + actual)
      × (b'.reserved_bytes + u.reserved_bytes ≡ b.reserved_bytes)
      × (b' ≡ record b { used_bytes = b'.used_bytes; reserved_bytes = b'.reserved_bytes })
  unfolding committed
  commit_upload-moves =
      let f = commit_upload-Commits now upload etag actual db r committed_ok in
      let old = find (object_at upload.bucket_id upload.logical_key) db.objects in
      let same_row : f.row ≡ u = cc (row, f.row_found) in
      let after =
        find-update (bucket_is upload.bucket_id) (bucket_is upload.bucket_id)
          (settle_bucket u.reserved_bytes (old_size old) actual) (λ _. refl) db.buckets in
      let held =
        old_size-le_in (committed now upload etag actual old) old db.objects upload.bucket_id
          refl in
      let reserved =
        le-total-find (upload_in upload.bucket_id) Upload.reserved_bytes (upload_is upload.id)
          db.uploads u row in
      (
        settle_bucket u.reserved_bytes (old_size old) actual b,
        rw (f.writes, ← f.replaced, same_row)
            (ground (
              arith,
              after,
              key-find Bucket.id upload.bucket_id db.buckets b home,
              str_eq_refl upload.bucket_id,
            )),
        ground (arith, held, c.bucket_used upload.bucket_id b home, str_eq_refl upload.bucket_id),
        ground (
          arith,
          reserved,
          c.bucket_reserved upload.bucket_id b home,
          str_eq_iff u.bucket_id upload.bucket_id,
        ),
        refl,
      )

  -- Where the upload had reserved its growth over the object that it replaces now, CommitUpload does
  -- not raise the bucket's total.
  pub commit_upload-within_quota :
      actual
        ≤ u.reserved_bytes
          + old_size (find (object_at upload.bucket_id upload.logical_key) db.objects)
      → (b' : Bucket) × (find (bucket_is upload.bucket_id) r.db.buckets ≡ some b')
        × (b'.used_bytes + b'.reserved_bytes ≤ b.used_bytes + b.reserved_bytes)
  commit_upload-within_quota covered =
      let (b', found, used, reserved, _) = commit_upload-moves in (b', found, omega arith)

  -- In a database with right accounts and a bucket filled to its quota, a CommitUpload that succeeds
  -- for a pending upload of the bucket ends above the quota, where no object is at its key and the
  -- upload has reserved less than the actual size. ReserveObject reserves only the growth over the
  -- object at the key, so this is the case once that object has been deleted in the meantime.
  pub commit_upload-overdraws :
      (quota : ℕ)
      → b.quota_bytes ≡ pos quota
      → find (object_at upload.bucket_id upload.logical_key) db.objects ≡ none
      → u.reserved_bytes < actual
      → b.used_bytes + b.reserved_bytes ≡ quota
      → (b' : Bucket) × (find (bucket_is upload.bucket_id) r.db.buckets ≡ some b')
        × (b'.quota_bytes ≡ pos quota)
        × (b'.quota_unlimited ≡ b.quota_unlimited)
        × (quota < b'.used_bytes + b'.reserved_bytes)
  commit_upload-overdraws quota limit gone short full =
      let (b', found, used, reserved, kept) = commit_upload-moves in
      let none_left : old_size (find (object_at upload.bucket_id upload.logical_key) db.objects)
          ≡ 0 =
        rw gone in
      (b', found, rw kept limit, rw kept, omega arith)
