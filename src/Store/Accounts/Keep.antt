-- ===== src/Store/Accounts/Keep.antt =====
-- UpdateStorageSource, RotatePhysicalKey and SetUploadTransferHash keep the accounts, and so does
-- every transaction that writes other tables.
use rosemary_virsree.Prelude.{ℕ, ◌≡◌, refl, not, none, arith}
use rosemary_virsree.Prelude.Text.{Str}
use rosemary_virsree.Prelude.Table.{find, update}
use rosemary_virsree.Prelude.Table.Rows.{count-update, find-update}
use rosemary_virsree.Prelude.Table.Keyed.{found-update}
use rosemary_virsree.Prelude.Table.Sums.{total-update_keeps}
use rosemary_virsree.Prelude.Results.{ok}
use rosemary_virsree.Model.{StorageSource, Object, Upload, Db}
use rosemary_virsree.Store.Columns.{
  source_is, object_is, upload_is, object_at, is_ready, object_in, object_on, upload_in, upload_on,
}
use rosemary_virsree.Store.Sources.{
  reconfigure, update_storage_source, rotate_physical_key, set_upload_transfer_hash,
}
use rosemary_virsree.Store.Accounts.{Consistent}

-- The accounts are a matter of four tables.
pub Consistent-tables :
    (db db' : Db)
    → db'.buckets ≡ db.buckets
    → db'.sources ≡ db.sources
    → db'.objects ≡ db.objects
    → db'.uploads ≡ db.uploads
    → Consistent db
    → Consistent db'
Consistent-tables db db' b s o u c = record {
  bucket_ids = λ i. rw b (c.bucket_ids i);
  source_ids = λ i. rw s (c.source_ids i);
  object_ids = λ i. rw o (c.object_ids i);
  object_keys = λ i k. rw o (c.object_keys i k);
  upload_ids = λ i. rw u (c.upload_ids i);
  all_ready = rw o c.all_ready;
  bucket_used = λ i x h. rw o (c.bucket_used i x (rw b at h));
  bucket_reserved = λ i x h. rw u (c.bucket_reserved i x (rw b at h));
  source_used = λ i x ne h. rw o (c.source_used i x ne (rw s at h));
  source_reserved = λ i x ne h. rw u (c.source_reserved i x ne (rw s at h));
  objects_housed = λ i h. rw o (c.objects_housed i (rw b at h));
  uploads_housed = λ i h. rw u (c.uploads_housed i (rw b at h));
  objects_sourced = λ i ne h. rw o (c.objects_sourced i ne (rw s at h));
  uploads_sourced = λ i ne h. rw u (c.uploads_sourced i ne (rw s at h));
}

abbrev with_sources : StorageSource → Db → Db
with_sources v db = record db { sources = update (source_is v.id) (reconfigure v) db.sources }

missing-reconfigure :
    (v : StorageSource) (db : Db) (i : Str)
    → find (source_is i) (with_sources v db).sources ≡ none
    → find (source_is i) db.sources ≡ none
missing-reconfigure v db i h =
    ground
      (arith, find-update (source_is i) (source_is v.id) (reconfigure v) (λ _. refl) db.sources)

with_sources-Consistent :
    (v : StorageSource) (db : Db) → Consistent db → Consistent (with_sources v db)
with_sources-Consistent v db c = record {
  bucket_ids = c.bucket_ids;
  source_ids = λ i.
      rw (count-update (source_is i) (source_is v.id) (reconfigure v) (λ _. refl) db.sources)
        (c.source_ids i);
  object_ids = c.object_ids;
  object_keys = c.object_keys;
  upload_ids = c.upload_ids;
  all_ready = c.all_ready;
  bucket_used = c.bucket_used;
  bucket_reserved = c.bucket_reserved;
  source_used = λ i s' ne h.
      let (s, h', e) =
        found-update StorageSource.id (reconfigure v) (λ _. refl) v.id i db.sources s' h in
      ground (arith, c.source_used i s ne h');
  source_reserved = λ i s' ne h.
      let (s, h', e) =
        found-update StorageSource.id (reconfigure v) (λ _. refl) v.id i db.sources s' h in
      ground (arith, c.source_reserved i s ne h');
  objects_housed = c.objects_housed;
  uploads_housed = c.uploads_housed;
  objects_sourced = λ i ne h. c.objects_sourced i ne (missing-reconfigure v db i h);
  uploads_sourced = λ i ne h. c.uploads_sourced i ne (missing-reconfigure v db i h);
}

-- A successful UpdateStorageSource keeps the accounts.
pub update_storage_source-Consistent :
    (v : StorageSource) (db db' : Db)
    → Consistent db
    → update_storage_source v db ≡ ok db'
    → Consistent db'
unfolding update_storage_source
update_storage_source-Consistent v db db' c h =
    let e : db' ≡ with_sources v db = ground arith in rw e (with_sources-Consistent v db c)

abbrev rotated : ℕ → Str → ℕ → Object → Object
rotated now key generation o = record o {
  physical_key = key;
  generation = generation;
  updated_at = now;
}

abbrev with_objects : ℕ → Str → Str → ℕ → Db → Db
with_objects now id key generation db = record db {
  objects = update (object_is id) (rotated now key generation) db.objects;
}

with_objects-Consistent :
    (now : ℕ) (id key : Str) (generation : ℕ) (db : Db)
    → Consistent db
    → Consistent (with_objects now id key generation db)
with_objects-Consistent now id key generation db c =
    let f = rotated now key generation in
    record {
      bucket_ids = c.bucket_ids;
      source_ids = c.source_ids;
      object_ids = λ i.
          rw (count-update (object_is i) (object_is id) f (λ _. refl) db.objects) (c.object_ids i);
      object_keys = λ i k.
          rw (count-update (object_at i k) (object_is id) f (λ _. refl) db.objects)
            (c.object_keys i k);
      upload_ids = c.upload_ids;
      all_ready =
          rw (count-update (λ o. not (is_ready o)) (object_is id) f (λ _. refl) db.objects)
            c.all_ready;
      bucket_used = λ i b h.
          rw
            (total-update_keeps (object_in i) Object.size (object_is id) f (λ _. refl) (λ _. refl)
              db.objects)
            (c.bucket_used i b h);
      bucket_reserved = c.bucket_reserved;
      source_used = λ i s ne h.
          rw
            (total-update_keeps (object_on i) Object.size (object_is id) f (λ _. refl) (λ _. refl)
              db.objects)
            (c.source_used i s ne h);
      source_reserved = c.source_reserved;
      objects_housed = λ i h.
          rw (count-update (object_in i) (object_is id) f (λ _. refl) db.objects)
            (c.objects_housed i h);
      uploads_housed = c.uploads_housed;
      objects_sourced = λ i ne h.
          rw (count-update (object_on i) (object_is id) f (λ _. refl) db.objects)
            (c.objects_sourced i ne h);
      uploads_sourced = c.uploads_sourced;
    }

-- A successful RotatePhysicalKey keeps the accounts.
pub rotate_physical_key-Consistent :
    (now : ℕ) (id key : Str) (generation : ℕ) (db db' : Db)
    → Consistent db
    → rotate_physical_key now id key generation db ≡ ok db'
    → Consistent db'
unfolding rotate_physical_key
rotate_physical_key-Consistent now id key generation db db' c h =
    let e : db' ≡ with_objects now id key generation db = ground arith in
    rw e (with_objects-Consistent now id key generation db c)

abbrev hashed : Str → Upload → Upload
hashed hash u = record u { transfer_hash = hash }

-- SetUploadTransferHash keeps the accounts.
pub set_upload_transfer_hash-Consistent :
    (id hash : Str) (db : Db) → Consistent db → Consistent (set_upload_transfer_hash id hash db)
unfolding set_upload_transfer_hash
set_upload_transfer_hash-Consistent id hash db c =
    let f = hashed hash in
    record {
      bucket_ids = c.bucket_ids;
      source_ids = c.source_ids;
      object_ids = c.object_ids;
      object_keys = c.object_keys;
      upload_ids = λ i.
          rw (count-update (upload_is i) (upload_is id) f (λ _. refl) db.uploads) (c.upload_ids i);
      all_ready = c.all_ready;
      bucket_used = c.bucket_used;
      bucket_reserved = λ i b h.
          rw
            (total-update_keeps (upload_in i) Upload.reserved_bytes (upload_is id) f (λ _. refl)
              (λ _. refl) db.uploads)
            (c.bucket_reserved i b h);
      source_used = c.source_used;
      source_reserved = λ i s ne h.
          rw
            (total-update_keeps (upload_on i) Upload.source_reserved_bytes (upload_is id) f
              (λ _. refl) (λ _. refl) db.uploads)
            (c.source_reserved i s ne h);
      objects_housed = c.objects_housed;
      uploads_housed = λ i h.
          rw (count-update (upload_in i) (upload_is id) f (λ _. refl) db.uploads)
            (c.uploads_housed i h);
      objects_sourced = c.objects_sourced;
      uploads_sourced = λ i ne h.
          rw (count-update (upload_on i) (upload_is id) f (λ _. refl) db.uploads)
            (c.uploads_sourced i ne h);
    }
