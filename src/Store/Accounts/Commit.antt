-- ===== src/Store/Accounts/Commit.antt =====
-- CommitUpload keeps the accounts.
use rosemary_virsree.Prelude.{
  ℕ, ◌+◌, ◌≡◌, ◌≢◌, refl, inl, inr, true, false, Option, none, some, [], arith, Option-cases,
  if◌then◌else◌,
}
use rosemary_virsree.Prelude.Int.{max0_sub}
use rosemary_virsree.Prelude.Text.{Str, str_eq, str_eq_iff, str_eq_refl}
use rosemary_virsree.Prelude.Table.{find, total}
use rosemary_virsree.Prelude.Table.Rows.{count-remove-le, find-count_zero_false}
use rosemary_virsree.Prelude.Table.Sums.{total-remove}
use rosemary_virsree.Prelude.Results.{ok}
use rosemary_virsree.Model.{Bucket, StorageSource, Object, Upload, Db, ready}
use rosemary_virsree.Store.Columns.{
  bucket_is, source_is, upload_is, object_at, is_ready, object_in, object_on, upload_in, upload_on,
  update_source,
}
use rosemary_virsree.Store.Commit.{
  Committed, committed, settle, settle_bucket, settle_source, release_source, old_size, held_on,
  object_clashes, commit_upload,
}
use rosemary_virsree.Store.Accounts.{Consistent}
use rosemary_virsree.Store.Accounts.Moves.{
  found-update_bucket, count-update_bucket, missing-update_bucket, found-update_source,
  count-update_source, missing-update_source,
}
use rosemary_virsree.Store.Accounts.Upsert.{
  total-upsert_in, total-upsert_on, upsert-KeysUnique, count_ids-upsert, count_in-upsert,
  count_on-upsert, all_ready-upsert, old_size-le_in, old_size-le_on,
}

-- What a successful CommitUpload has found and written.
pub record Commits (now : ℕ) (upload : Object) (etag : Str) (actual : ℕ) (db : Db) (r : Committed)
    : Type 0 where
  pub bucket : Bucket
  pub found : find (bucket_is upload.bucket_id) db.buckets ≡ some bucket
  pub row : Upload
  pub row_found : find (upload_is upload.id) db.uploads ≡ some row
  pub old : Option Object
  pub replaced : find (object_at upload.bucket_id upload.logical_key) db.objects ≡ old
  pub object_eq : r.object ≡ committed now upload etag actual old
  pub fresh : object_clashes (committed now upload etag actual old) old db.objects ≡ false
  pub writes : r.db ≡ settle upload (committed now upload etag actual old) actual row old db

pub commit_upload-Commits :
    (now : ℕ) (upload : Object) (etag : Str) (actual : ℕ) (db : Db) (r : Committed)
    → commit_upload now upload etag actual db ≡ ok r
    → Commits now upload etag actual db r
unfolding commit_upload
commit_upload-Commits now upload etag actual db r h =
    elim (Option-cases (find (bucket_is upload.bucket_id) db.buckets)) [
      | inl missing ↦ absurd (ground arith)
      | inr (b, found) ↦ elim (Option-cases (find (upload_is upload.id) db.uploads)) [
        | inl missing ↦ absurd (ground arith)
        | inr (u, row_found) ↦ record {
          bucket = b;
          found = found;
          row = u;
          row_found = row_found;
          old = find (object_at upload.bucket_id upload.logical_key) db.objects;
          replaced = refl;
          object_eq = ground arith;
          fresh = ground arith;
          writes = ground arith;
        }
      ]
    ]

module _ (upload new : Object) (actual : ℕ) (u : Upload) (old : Option Object) (db : Db)
    (c : Consistent db) (b : Bucket) (found : find (bucket_is upload.bucket_id) db.buckets ≡ some b)
    (row : find (upload_is upload.id) db.uploads ≡ some u)
    (replaced : find (object_at new.bucket_id new.logical_key) db.objects ≡ old)
    (fresh : object_clashes new old db.objects ≡ false) (is_new : is_ready new ≡ true)
    (size : new.size ≡ actual) (home : new.bucket_id ≡ upload.bucket_id)
    (source : new.source_id ≡ upload.source_id) (same_bucket : u.bucket_id ≡ upload.bucket_id)
    (same_source : u.source_id ≡ upload.source_id) where
  bucket_used-settle :
      (i : Str) (b' : Bucket)
      → find (bucket_is i) (settle upload new actual u old db).buckets ≡ some b'
      → b'.used_bytes ≡ total (object_in i) Object.size (settle upload new actual u old db).objects
  bucket_used-settle i b' h =
      let (b, h', e) =
        found-update_bucket (settle_bucket u.reserved_bytes (old_size old) actual) (λ _. refl)
          upload.bucket_id i db.buckets b' h in
      ground (
        arith,
        c.bucket_used i b h',
        total-upsert_in new old db.objects i replaced c.object_keys,
        old_size-le_in new old db.objects i replaced,
      )

  bucket_reserved-settle :
      (i : Str) (b' : Bucket)
      → find (bucket_is i) (settle upload new actual u old db).buckets ≡ some b'
      → b'.reserved_bytes
        ≡ total (upload_in i) Upload.reserved_bytes (settle upload new actual u old db).uploads
  bucket_reserved-settle i b' h =
      let (b, h', e) =
        found-update_bucket (settle_bucket u.reserved_bytes (old_size old) actual) (λ _. refl)
          upload.bucket_id i db.buckets b' h in
      ground (
        arith,
        c.bucket_reserved i b h',
        total-remove (upload_in i) Upload.reserved_bytes (upload_is upload.id) db.uploads u
            (c.upload_ids upload.id) row,
      )

  sources_found :
      (i : Str) (s' : StorageSource)
      → i ≢ []
      → find (source_is i) (settle upload new actual u old db).sources ≡ some s'
      → (s : StorageSource) × (find (source_is i) db.sources ≡ some s)
        × (s'.used_bytes
            ≡ max0_sub
                (s.used_bytes + (if str_eq upload.source_id i then actual else 0))
                (if str_eq (held_on old) i then old_size old else 0))
        × (s'.reserved_bytes
            ≡ max0_sub s.reserved_bytes
                (if str_eq upload.source_id i then u.source_reserved_bytes else 0))
  sources_found i s' ne h =
      let (t, h', e) =
        found-update_source (release_source (old_size old)) (λ _. refl) (held_on old) i
          (update_source upload.source_id (settle_source u.source_reserved_bytes actual) db.sources)
          s' ne h in
      let (s, h'', e') =
        found-update_source (settle_source u.source_reserved_bytes actual) (λ _. refl)
          upload.source_id i db.sources t ne h' in
      (s, h'', ground arith, ground arith)

  source_used-settle :
      (i : Str) (s' : StorageSource)
      → i ≢ []
      → find (source_is i) (settle upload new actual u old db).sources ≡ some s'
      → s'.used_bytes ≡ total (object_on i) Object.size (settle upload new actual u old db).objects
  source_used-settle i s' ne h =
      let (s, h', used, reserved) = sources_found i s' ne h in
      ground (
        arith,
        c.source_used i s ne h',
        total-upsert_on new old db.objects i replaced c.object_keys,
        old_size-le_on new old db.objects i replaced,
      )

  source_reserved-settle :
      (i : Str) (s' : StorageSource)
      → i ≢ []
      → find (source_is i) (settle upload new actual u old db).sources ≡ some s'
      → s'.reserved_bytes
        ≡ total
            (upload_on i)
            Upload.source_reserved_bytes
            (settle upload new actual u old db).uploads
  source_reserved-settle i s' ne h =
      let (s, h', used, reserved) = sources_found i s' ne h in
      ground (
        arith,
        c.source_reserved i s ne h',
        total-remove (upload_on i) Upload.source_reserved_bytes (upload_is upload.id) db.uploads u
            (c.upload_ids upload.id) row,
      )

  sources_missing :
      (i : Str)
      → find (source_is i) (settle upload new actual u old db).sources ≡ none
      → find (source_is i) db.sources ≡ none
  sources_missing i h =
      missing-update_source (settle_source u.source_reserved_bytes actual) (λ _. refl)
        upload.source_id i db.sources
        (missing-update_source (release_source (old_size old)) (λ _. refl) (held_on old) i
          (update_source upload.source_id (settle_source u.source_reserved_bytes actual) db.sources)
          h)

  -- The source of the upload's row exists, since the row is there.
  upload_elsewhere :
      (i : Str) → i ≢ [] → find (source_is i) db.sources ≡ none → str_eq new.source_id i ≡ false
  upload_elsewhere i ne missing = ground (
    arith,
    c.uploads_sourced i ne missing,
    str_eq_iff u.source_id i,
    str_eq_iff new.source_id i,
    find-count_zero_false (upload_on i) (upload_is upload.id) db.uploads u,
    row,
  )

  settle-Consistent : Consistent (settle upload new actual u old db)
  settle-Consistent =
      let f = settle_bucket u.reserved_bytes (old_size old) actual in
      record {
        bucket_ids = λ i.
            rw (count-update_bucket f (λ _. refl) upload.bucket_id i db.buckets) (c.bucket_ids i);
        source_ids = λ i. ground (
          arith,
          c.source_ids i,
          count-update_source (settle_source u.source_reserved_bytes actual) (λ _. refl)
              upload.source_id i db.sources,
          count-update_source (release_source (old_size old)) (λ _. refl) (held_on old) i
              (update_source upload.source_id (settle_source u.source_reserved_bytes actual)
                db.sources),
        );
        object_ids = λ i. count_ids-upsert new old db.objects i fresh (c.object_ids i);
        object_keys = upsert-KeysUnique new old db.objects replaced c.object_keys;
        upload_ids = λ i.
            omega (
              arith,
              c.upload_ids i,
              count-remove-le (upload_is i) (upload_is upload.id) db.uploads,
            );
        all_ready = all_ready-upsert new old db.objects is_new c.all_ready;
        bucket_used = bucket_used-settle;
        bucket_reserved = bucket_reserved-settle;
        source_used = source_used-settle;
        source_reserved = source_reserved-settle;
        objects_housed = λ i h.
            let h' = missing-update_bucket f (λ _. refl) upload.bucket_id i db.buckets h in
            ground (
              arith,
              c.objects_housed i h',
              count_in-upsert new old db.objects i,
              str_eq_iff new.bucket_id i,
            );
        uploads_housed = λ i h.
            let h' = missing-update_bucket f (λ _. refl) upload.bucket_id i db.buckets h in
            ground (
              arith,
              c.uploads_housed i h',
              count-remove-le (upload_in i) (upload_is upload.id) db.uploads,
            );
        objects_sourced = λ i ne h.
            let h' = sources_missing i h in
            omega (
              arith,
              c.objects_sourced i ne h',
              count_on-upsert new old db.objects i (upload_elsewhere i ne h'),
            );
        uploads_sourced = λ i ne h. omega (
          arith,
          c.uploads_sourced i ne (sources_missing i h),
          count-remove-le (upload_on i) (upload_is upload.id) db.uploads,
        );
      }

-- A successful CommitUpload keeps the accounts, where the object that it is given names the bucket
-- and the source of the upload's row.
pub commit_upload-Consistent :
    (now : ℕ) (upload : Object) (etag : Str) (actual : ℕ) (u : Upload) (db : Db) (r : Committed)
    → Consistent db
    → find (upload_is upload.id) db.uploads ≡ some u
    → u.bucket_id ≡ upload.bucket_id
    → u.source_id ≡ upload.source_id
    → commit_upload now upload etag actual db ≡ ok r
    → Consistent r.db
commit_upload-Consistent now upload etag actual u db r c row sb ss h =
    let f = commit_upload-Commits now upload etag actual db r h in
    let e : u ≡ f.row = cc (row, f.row_found) in
    rw f.writes (
      unfold committed in
      settle-Consistent upload (committed now upload etag actual f.old) actual f.row f.old db c
        f.bucket f.found f.row_found f.replaced f.fresh (str_eq_refl ready) refl refl refl
        (rw (← e) sb) (rw (← e) ss))
