-- ===== src/Store/Accounts/Create.antt =====
-- CreateBucket, UpdateBucket, CreateStorageSource, UpdateStorageSource and RotatePhysicalKey keep
-- the accounts.
use rosemary_virsree.Prelude.{◌≡◌, ◌≢◌, refl, inl, inr, Bool, false, ◌∷◌, [], arith, Option-cases}
use rosemary_virsree.Prelude.Int.{ℤ}
use rosemary_virsree.Prelude.Text.{Str, str_eq, str_eq_iff}
use rosemary_virsree.Prelude.Table.{find, any, update}
use rosemary_virsree.Prelude.Table.Rows.{count-any-false, find-count_zero}
use rosemary_virsree.Prelude.Table.Keyed.{count-insert}
use rosemary_virsree.Prelude.Table.Sums.{total-count_zero}
use rosemary_virsree.Prelude.Results.{ok}
use rosemary_virsree.Model.{Bucket, StorageSource, Object, Upload, Db}
use rosemary_virsree.Store.Columns.{
  bucket_is, source_is, object_in, object_on, upload_in, upload_on,
}
use rosemary_virsree.Store.Buckets.{new_row, resize, create_bucket, update_bucket}
use rosemary_virsree.Store.Sources.{create_storage_source}
use rosemary_virsree.Store.Accounts.{Consistent}
use rosemary_virsree.Store.Accounts.Moves.{
  found-update_bucket, count-update_bucket, missing-update_bucket,
}

abbrev with_bucket : Bucket → Db → Db
with_bucket b db = record db { buckets = new_row b ∷ db.buckets }

with_bucket-Consistent :
    (b : Bucket) (db : Db)
    → any (bucket_is b.id) db.buckets ≡ false
    → Consistent db
    → Consistent (with_bucket b db)
with_bucket-Consistent b db fresh c =
    let missing =
      find-count_zero (bucket_is b.id) db.buckets
        (count-any-false (bucket_is b.id) db.buckets fresh) in
    record {
      bucket_ids = λ i. count-insert Bucket.id (new_row b) db.buckets fresh i (c.bucket_ids i);
      source_ids = c.source_ids;
      object_ids = c.object_ids;
      object_keys = c.object_keys;
      upload_ids = c.upload_ids;
      all_ready = c.all_ready;
      bucket_used = λ i b' h.
          unfold find in
          ground (
            arith,
            c.bucket_used i b',
            str_eq_iff b.id i,
            total-count_zero (object_in b.id) Object.size db.objects
                (c.objects_housed b.id missing),
          );
      bucket_reserved = λ i b' h.
          unfold find in
          ground (
            arith,
            c.bucket_reserved i b',
            str_eq_iff b.id i,
            total-count_zero (upload_in b.id) Upload.reserved_bytes db.uploads
                (c.uploads_housed b.id missing),
          );
      source_used = c.source_used;
      source_reserved = c.source_reserved;
      objects_housed = λ i h. unfold find in ground (arith, c.objects_housed i);
      uploads_housed = λ i h. unfold find in ground (arith, c.uploads_housed i);
      objects_sourced = c.objects_sourced;
      uploads_sourced = c.uploads_sourced;
    }

-- A successful CreateBucket keeps the accounts.
pub create_bucket-Consistent :
    (b : Bucket) (limit : ℤ) (unlimited : Bool) (db db' : Db)
    → Consistent db
    → create_bucket b limit unlimited db ≡ ok db'
    → Consistent db'
unfolding create_bucket
create_bucket-Consistent b limit unlimited db db' c h =
    let e : db' ≡ with_bucket b db = ground arith in
    let fresh : any (bucket_is b.id) db.buckets ≡ false = ground arith in
    rw e (with_bucket-Consistent b db fresh c)

-- An UPDATE of one bucket that leaves its counters alone.
abbrev with_buckets : Str → (Bucket → Bucket) → Db → Db
with_buckets j f db = record db { buckets = update (bucket_is j) f db.buckets }

with_buckets-Consistent :
    (j : Str) (f : Bucket → Bucket) (db : Db)
    → ((b : Bucket) → (f b).id ≡ b.id)
    → ((b : Bucket) → (f b).used_bytes ≡ b.used_bytes)
    → ((b : Bucket) → (f b).reserved_bytes ≡ b.reserved_bytes)
    → Consistent db
    → Consistent (with_buckets j f db)
with_buckets-Consistent j f db keeps used reserved c = record {
  bucket_ids = λ i. rw (count-update_bucket f keeps j i db.buckets) (c.bucket_ids i);
  source_ids = c.source_ids;
  object_ids = c.object_ids;
  object_keys = c.object_keys;
  upload_ids = c.upload_ids;
  all_ready = c.all_ready;
  bucket_used = λ i b' h.
      let (b, h', e) = found-update_bucket f keeps j i db.buckets b' h in
      ground (arith, c.bucket_used i b h', used b);
  bucket_reserved = λ i b' h.
      let (b, h', e) = found-update_bucket f keeps j i db.buckets b' h in
      ground (arith, c.bucket_reserved i b h', reserved b);
  source_used = c.source_used;
  source_reserved = c.source_reserved;
  objects_housed = λ i h. c.objects_housed i (missing-update_bucket f keeps j i db.buckets h);
  uploads_housed = λ i h. c.uploads_housed i (missing-update_bucket f keeps j i db.buckets h);
  objects_sourced = c.objects_sourced;
  uploads_sourced = c.uploads_sourced;
}

-- A successful UpdateBucket keeps the accounts.
pub update_bucket-Consistent :
    (slug name visibility : Str) (quota : ℤ) (unlimited : Bool) (limit : ℤ) (platform : Bool)
    (db : Db) (r : Bucket × Db)
    → Consistent db
    → update_bucket slug name visibility quota unlimited limit platform db ≡ ok r
    → Consistent r.1
unfolding update_bucket
update_bucket-Consistent slug name visibility quota unlimited limit platform db r c h =
    elim (Option-cases (find (λ b. str_eq b.slug slug) db.buckets)) [
      | inl missing ↦ absurd (ground arith)
      | inr (b, found) ↦
          let e : r.1 ≡ with_buckets b.id (resize name visibility quota unlimited) db =
            ground arith in
          rw e (
            with_buckets-Consistent b.id (resize name visibility quota unlimited) db (λ _. refl)
              (λ _. refl) (λ _. refl) c)
    ]

abbrev with_source : StorageSource → Db → Db
with_source v db = record db {
  sources = record v { used_bytes = 0; reserved_bytes = 0 } ∷ db.sources;
}

with_source-Consistent :
    (v : StorageSource) (db : Db)
    → any (source_is v.id) db.sources ≡ false
    → Consistent db
    → Consistent (with_source v db)
with_source-Consistent v db fresh c =
    let missing =
      find-count_zero (source_is v.id) db.sources
        (count-any-false (source_is v.id) db.sources fresh) in
    record {
      bucket_ids = c.bucket_ids;
      source_ids = λ i.
          count-insert StorageSource.id (record v { used_bytes = 0; reserved_bytes = 0 }) db.sources
            fresh i (c.source_ids i);
      object_ids = c.object_ids;
      object_keys = c.object_keys;
      upload_ids = c.upload_ids;
      all_ready = c.all_ready;
      bucket_used = c.bucket_used;
      bucket_reserved = c.bucket_reserved;
      source_used = λ i s' ne h.
          unfold find in
          ground (
            arith,
            c.source_used i s' ne,
            str_eq_iff v.id i,
            λ (named : v.id ≢ []).
                total-count_zero (object_on v.id) Object.size db.objects
                  (c.objects_sourced v.id named missing),
          );
      source_reserved = λ i s' ne h.
          unfold find in
          ground (
            arith,
            c.source_reserved i s' ne,
            str_eq_iff v.id i,
            λ (named : v.id ≢ []).
                total-count_zero (upload_on v.id) Upload.source_reserved_bytes db.uploads
                  (c.uploads_sourced v.id named missing),
          );
      objects_housed = c.objects_housed;
      uploads_housed = c.uploads_housed;
      objects_sourced = λ i ne h. unfold find in ground (arith, c.objects_sourced i ne);
      uploads_sourced = λ i ne h. unfold find in ground (arith, c.uploads_sourced i ne);
    }

-- A successful CreateStorageSource keeps the accounts.
pub create_storage_source-Consistent :
    (v : StorageSource) (db db' : Db)
    → Consistent db
    → create_storage_source v db ≡ ok db'
    → Consistent db'
unfolding create_storage_source
create_storage_source-Consistent v db db' c h =
    let e : db' ≡ with_source v db = ground arith in
    let fresh : any (source_is v.id) db.sources ≡ false = ground arith in
    rw e (with_source-Consistent v db fresh c)
