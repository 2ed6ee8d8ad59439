-- ===== src/Store/Accounts.antt =====
-- The accounts that internal/store keeps: what `used_bytes` and `reserved_bytes` of a bucket and of
-- a storage source stand for. The children treat the transactions one by one.
pub mod Moves
pub mod Reserve
pub mod Upsert
pub mod Release
pub mod Erase
pub mod Create
pub mod Keep
pub mod Commit
use rosemary_virsree.Prelude.{ℕ, ◌≤◌, ◌≡◌, ◌≢◌, not, none, some, []}
use rosemary_virsree.Prelude.Text.{Str}
use rosemary_virsree.Prelude.Table.{find, total, count}
use rosemary_virsree.Model.{Bucket, StorageSource, Object, Upload, Db}
use rosemary_virsree.Store.Columns.{
  bucket_is, source_is, object_is, upload_is, object_at, upload_at, is_ready, object_in, upload_in,
  object_on, upload_on,
}

-- The keys are unique, every object is ready, objects and uploads lie in buckets and on sources that
-- exist, and each counter is the sum that it stands for. The source "" has no row: it is the
-- configured legacy backend.
pub record Consistent (db : Db) : Type 0 where
  pub bucket_ids : (i : Str) → count (bucket_is i) db.buckets ≤ 1
  pub source_ids : (i : Str) → count (source_is i) db.sources ≤ 1
  pub object_ids : (i : Str) → count (object_is i) db.objects ≤ 1
  pub object_keys : (i k : Str) → count (object_at i k) db.objects ≤ 1
  pub upload_ids : (i : Str) → count (upload_is i) db.uploads ≤ 1
  pub all_ready : count (λ o. not (is_ready o)) db.objects ≡ 0
  pub bucket_used :
      (i : Str) (b : Bucket)
      → find (bucket_is i) db.buckets ≡ some b
      → b.used_bytes ≡ total (object_in i) Object.size db.objects
  pub bucket_reserved :
      (i : Str) (b : Bucket)
      → find (bucket_is i) db.buckets ≡ some b
      → b.reserved_bytes ≡ total (upload_in i) Upload.reserved_bytes db.uploads
  pub source_used :
      (i : Str) (s : StorageSource)
      → i ≢ []
      → find (source_is i) db.sources ≡ some s
      → s.used_bytes ≡ total (object_on i) Object.size db.objects
  pub source_reserved :
      (i : Str) (s : StorageSource)
      → i ≢ []
      → find (source_is i) db.sources ≡ some s
      → s.reserved_bytes ≡ total (upload_on i) Upload.source_reserved_bytes db.uploads
  pub objects_housed :
      (i : Str) → find (bucket_is i) db.buckets ≡ none → count (object_in i) db.objects ≡ 0
  pub uploads_housed :
      (i : Str) → find (bucket_is i) db.buckets ≡ none → count (upload_in i) db.uploads ≡ 0
  pub objects_sourced :
      (i : Str) → i ≢ [] → find (source_is i) db.sources ≡ none → count (object_on i) db.objects ≡ 0
  pub uploads_sourced :
      (i : Str) → i ≢ [] → find (source_is i) db.sources ≡ none → count (upload_on i) db.uploads ≡ 0
