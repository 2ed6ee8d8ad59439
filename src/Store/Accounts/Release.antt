-- ===== src/Store/Accounts/Release.antt =====
-- CancelUpload, DeleteObject and FinishBucketDeletion keep the accounts.
use rosemary_virsree.Prelude.{◌≡◌, refl, inl, inr, not, some, arith, Option-cases}
use rosemary_virsree.Prelude.Text.{Str, str_eq}
use rosemary_virsree.Prelude.Table.{find, remove, update}
use rosemary_virsree.Prelude.Table.Rows.{count-remove-le, find-all}
use rosemary_virsree.Prelude.Table.Sums.{total-remove}
use rosemary_virsree.Prelude.Results.{ok}
use rosemary_virsree.Model.{Object, Upload, Db}
use rosemary_virsree.Store.Columns.{
  bucket_is, upload_is, object_is, object_at, is_ready, object_in, object_on, upload_in, upload_on,
  update_source,
}
use rosemary_virsree.Store.Commit.{
  unreserve_bucket, unreserve_source, release_bucket, release_source, cancel_upload, delete_object,
}
use rosemary_virsree.Store.Accounts.{Consistent}
use rosemary_virsree.Store.Accounts.Moves.{
  found-update_bucket, count-update_bucket, missing-update_bucket, found-update_source,
  count-update_source, missing-update_source,
}

-- The writes of CancelUpload.
abbrev cancelled : Str → Upload → Db → Db
cancelled id u db = record db {
  uploads = remove (upload_is id) db.uploads;
  buckets = update (bucket_is u.bucket_id) (unreserve_bucket u.reserved_bytes) db.buckets;
  sources = update_source u.source_id (unreserve_source u.source_reserved_bytes) db.sources;
}

cancelled-Consistent :
    (id : Str) (u : Upload) (db : Db)
    → Consistent db
    → find (upload_is id) db.uploads ≡ some u
    → Consistent (cancelled id u db)
cancelled-Consistent id u db c row =
    let f = unreserve_bucket u.reserved_bytes in
    let g = unreserve_source u.source_reserved_bytes in
    record {
      bucket_ids =
          λ i. rw (count-update_bucket f (λ _. refl) u.bucket_id i db.buckets) (c.bucket_ids i);
      source_ids =
          λ i. rw (count-update_source g (λ _. refl) u.source_id i db.sources) (c.source_ids i);
      object_ids = c.object_ids;
      object_keys = c.object_keys;
      upload_ids = λ i.
          omega (arith, c.upload_ids i, count-remove-le (upload_is i) (upload_is id) db.uploads);
      all_ready = c.all_ready;
      bucket_used = λ i b' h.
          let (b, h', e) = found-update_bucket f (λ _. refl) u.bucket_id i db.buckets b' h in
          ground (arith, c.bucket_used i b h');
      bucket_reserved = λ i b' h.
          let (b, h', e) = found-update_bucket f (λ _. refl) u.bucket_id i db.buckets b' h in
          ground (
            arith,
            c.bucket_reserved i b h',
            total-remove (upload_in i) Upload.reserved_bytes (upload_is id) db.uploads u
                (c.upload_ids id) row,
          );
      source_used = λ i s' ne h.
          let (s, h', e) = found-update_source g (λ _. refl) u.source_id i db.sources s' ne h in
          ground (arith, c.source_used i s ne h');
      source_reserved = λ i s' ne h.
          let (s, h', e) = found-update_source g (λ _. refl) u.source_id i db.sources s' ne h in
          ground (
            arith,
            c.source_reserved i s ne h',
            total-remove (upload_on i) Upload.source_reserved_bytes (upload_is id) db.uploads u
                (c.upload_ids id) row,
          );
      objects_housed = λ i h.
          c.objects_housed i (missing-update_bucket f (λ _. refl) u.bucket_id i db.buckets h);
      uploads_housed = λ i h.
          let h' = missing-update_bucket f (λ _. refl) u.bucket_id i db.buckets h in
          omega
            (arith, c.uploads_housed i h', count-remove-le (upload_in i) (upload_is id) db.uploads);
      objects_sourced = λ i ne h.
          c.objects_sourced i ne (missing-update_source g (λ _. refl) u.source_id i db.sources h);
      uploads_sourced = λ i ne h.
          let h' = missing-update_source g (λ _. refl) u.source_id i db.sources h in
          omega (
            arith,
            c.uploads_sourced i ne h',
            count-remove-le (upload_on i) (upload_is id) db.uploads,
          );
    }

-- A successful CancelUpload keeps the accounts.
pub cancel_upload-Consistent :
    (id : Str) (db db' : Db) → Consistent db → cancel_upload id db ≡ ok db' → Consistent db'
unfolding cancel_upload
cancel_upload-Consistent id db db' c h = elim (Option-cases (find (upload_is id) db.uploads)) [
  | inl missing ↦ absurd (ground arith)
  | inr (u, row) ↦
      let e : db' ≡ cancelled id u db = ground arith in rw e (cancelled-Consistent id u db c row)
]

-- The writes of DeleteObject to the accounts, for an object that is ready.
abbrev deleted : Str → Object → Db → Db
deleted id o db = record db {
  public_links = remove (λ l. str_eq l.object_id id) db.public_links;
  transfer_tokens = remove (λ t. str_eq t.object_id id) db.transfer_tokens;
  objects = remove (object_is id) db.objects;
  buckets = update (bucket_is o.bucket_id) (release_bucket o.size) db.buckets;
  sources = update_source o.source_id (release_source o.size) db.sources;
}

deleted-Consistent :
    (id : Str) (o : Object) (db : Db)
    → Consistent db
    → find (object_is id) db.objects ≡ some o
    → Consistent (deleted id o db)
deleted-Consistent id o db c row =
    let f = release_bucket o.size in
    let g = release_source o.size in
    record {
      bucket_ids =
          λ i. rw (count-update_bucket f (λ _. refl) o.bucket_id i db.buckets) (c.bucket_ids i);
      source_ids =
          λ i. rw (count-update_source g (λ _. refl) o.source_id i db.sources) (c.source_ids i);
      object_ids = λ i.
          omega (arith, c.object_ids i, count-remove-le (object_is i) (object_is id) db.objects);
      object_keys = λ i k.
          omega
            (arith, c.object_keys i k, count-remove-le (object_at i k) (object_is id) db.objects);
      upload_ids = c.upload_ids;
      all_ready =
          omega
            (arith, c.all_ready, count-remove-le (λ x. not (is_ready x)) (object_is id) db.objects);
      bucket_used = λ i b' h.
          let (b, h', e) = found-update_bucket f (λ _. refl) o.bucket_id i db.buckets b' h in
          ground (
            arith,
            c.bucket_used i b h',
            total-remove (object_in i) Object.size (object_is id) db.objects o (c.object_ids id)
                row,
          );
      bucket_reserved = λ i b' h.
          let (b, h', e) = found-update_bucket f (λ _. refl) o.bucket_id i db.buckets b' h in
          ground (arith, c.bucket_reserved i b h');
      source_used = λ i s' ne h.
          let (s, h', e) = found-update_source g (λ _. refl) o.source_id i db.sources s' ne h in
          ground (
            arith,
            c.source_used i s ne h',
            total-remove (object_on i) Object.size (object_is id) db.objects o (c.object_ids id)
                row,
          );
      source_reserved = λ i s' ne h.
          let (s, h', e) = found-update_source g (λ _. refl) o.source_id i db.sources s' ne h in
          ground (arith, c.source_reserved i s ne h');
      objects_housed = λ i h.
          let h' = missing-update_bucket f (λ _. refl) o.bucket_id i db.buckets h in
          omega
            (arith, c.objects_housed i h', count-remove-le (object_in i) (object_is id) db.objects);
      uploads_housed = λ i h.
          c.uploads_housed i (missing-update_bucket f (λ _. refl) o.bucket_id i db.buckets h);
      objects_sourced = λ i ne h.
          let h' = missing-update_source g (λ _. refl) o.source_id i db.sources h in
          omega (
            arith,
            c.objects_sourced i ne h',
            count-remove-le (object_on i) (object_is id) db.objects,
          );
      uploads_sourced = λ i ne h.
          c.uploads_sourced i ne (missing-update_source g (λ _. refl) o.source_id i db.sources h);
    }

-- A successful DeleteObject keeps the accounts.
pub delete_object-Consistent :
    (id : Str) (db db' : Db) → Consistent db → delete_object id db ≡ ok db' → Consistent db'
unfolding delete_object
delete_object-Consistent id db db' c h = elim (Option-cases (find (object_is id) db.objects)) [
  | inl missing ↦ absurd (ground arith)
  | inr (o, row) ↦
      let r = find-all is_ready (object_is id) db.objects o c.all_ready row in
      let e : db' ≡ deleted id o db = ground arith in rw e (deleted-Consistent id o db c row)
]
