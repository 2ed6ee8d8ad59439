-- ===== src/Store/Upload.antt =====
-- internal/store/store.go: requireActiveBucket, ReserveObject and GetUpload.
use rosemary_virsree.Prelude.{
  ℕ, ◌+◌, Bool, false, not, ◌&&◌, ◌||◌, Option, none, some, [], ◌∷◌, if◌then◌else◌,
}
use rosemary_virsree.Prelude.Int.{ℤ, pos, ltb_ℤ, leb_ℤ, wrap64, max0_sub}
use rosemary_virsree.Prelude.Text.{Str, str_eq}
use rosemary_virsree.Prelude.Table.{find, any, update, count}
use rosemary_virsree.Prelude.Results.{
  Result, ok, ◌>>=◌, ◌>>◌, fail_if, scan, not_found, constraint, bucket_deleting, pending_limit,
  object_limit, bucket_quota, source_capacity,
}
use rosemary_virsree.Model.{Bucket, StorageSource, Object, Upload, Db, pending}
use rosemary_virsree.Store.Columns.{
  bucket_is, source_is, upload_is, deletion_of, object_at, upload_at, is_ready, object_in,
  upload_in, update_source,
}

unfoldable pub require_active_bucket : Str → Db → Result (Unit {0})
require_active_bucket id db = do
  scan (find (bucket_is id) db.buckets) not_found
  fail_if (any (deletion_of id) db.bucket_deletions) bucket_deleting

-- The bytes that the upload still has to reserve in its bucket: o.Size - oldSize, at least 0.
abbrev pub to_reserve : ℕ → Option Object → ℕ
to_reserve size none = size
to_reserve size (some old) = max0_sub size old.size

-- `oldSource`, "" where no object is replaced.
abbrev pub old_source : Option Object → Str
old_source none = []
old_source (some old) = old.source_id

-- The capacity test of the storage source, made only if the upload names one.
unfoldable pub check_source : Str → ℕ → Db → Result (Unit {0})
check_source source wanted db = if str_eq source [] then ok tt else do
  s ← scan (find (λ s. source_is source s && s.enabled) db.sources) not_found
  fail_if
      (not s.capacity_unlimited
        && ltb_ℤ s.capacity_bytes (wrap64 (pos (s.used_bytes + s.reserved_bytes + wanted))))
      source_capacity

-- What the UNIQUE and PRIMARY KEY constraints of `uploads` and `upload_grants` refuse.
abbrev pub upload_clashes : Object → Db → Bool
upload_clashes o db =
    any (upload_is o.id) db.uploads
    || any (λ u. str_eq u.physical_key o.physical_key) db.uploads
    || any (upload_at o.bucket_id o.logical_key) db.uploads
    || any (λ g. str_eq g.id o.id) db.upload_grants

abbrev pub reserve_bucket : ℕ → Bucket → Bucket
reserve_bucket n b = record b { reserved_bytes = b.reserved_bytes + n }

abbrev pub reserve_source : ℕ → StorageSource → StorageSource
reserve_source n s = record s { reserved_bytes = s.reserved_bytes + n }

abbrev pub new_upload : Object → ℕ → ℕ → ℕ → Upload
new_upload o reserved source_reserved expires_at = record {
  id = o.id;
  bucket_id = o.bucket_id;
  source_id = o.source_id;
  logical_key = o.logical_key;
  physical_key = o.physical_key;
  size = o.size;
  content_type = o.content_type;
  reserved_bytes = reserved;
  source_reserved_bytes = source_reserved;
  transfer_hash = [];
  expires_at = expires_at;
  created_at = o.created_at;
}

-- The writes of ReserveObject.
abbrev pub insert_upload : Object → ℕ → ℕ → ℕ → Db → Db
insert_upload o reserved source_reserved expires_at db = record db {
  uploads = new_upload o reserved source_reserved expires_at ∷ db.uploads;
  upload_grants =
      record { id = o.id; bucket_id = o.bucket_id; expires_at = expires_at } ∷ db.upload_grants;
  buckets = update (bucket_is o.bucket_id) (reserve_bucket reserved) db.buckets;
  sources = update_source o.source_id (reserve_source source_reserved) db.sources;
}

unfoldable pub reserve_object : Object → ℕ → ℤ → ℤ → Db → Result Db
unfolding require_active_bucket check_source
reserve_object o expires_at max_objects max_pending db = do
  require_active_bucket o.bucket_id db
  fail_if (leb_ℤ max_pending (pos (count (upload_in o.bucket_id) db.uploads))) pending_limit
  fail_if
      (not (any (λ x. object_at o.bucket_id o.logical_key x && is_ready x) db.objects)
        && leb_ℤ max_objects (pos (count (λ x. object_in o.bucket_id x && is_ready x) db.objects)))
      object_limit
  b ← scan (find (bucket_is o.bucket_id) db.buckets) not_found
  let old = find (λ x. object_at o.bucket_id o.logical_key x && is_ready x) db.objects
  let reserved = to_reserve o.size old
  fail_if
      (not b.quota_unlimited
        && ltb_ℤ b.quota_bytes (wrap64 (pos (b.used_bytes + b.reserved_bytes + reserved))))
      bucket_quota
  let source_reserved = if str_eq (old_source old) o.source_id then reserved else o.size
  check_source o.source_id source_reserved db
  fail_if (upload_clashes o db) constraint
  ok (insert_upload o reserved source_reserved expires_at db)

abbrev pub object_of : Upload → Object
object_of u = record {
  id = u.id;
  bucket_id = u.bucket_id;
  source_id = u.source_id;
  logical_key = u.logical_key;
  physical_key = u.physical_key;
  content_type = u.content_type;
  etag = [];
  status = pending;
  size = u.size;
  generation = 0;
  public = false;
  created_at = u.created_at;
  updated_at = 0;
}

unfoldable pub get_upload : Str → Str → Str → Db → Result Object
get_upload bucket id key db = do
  u ← scan (find (λ u. upload_at bucket key u && upload_is id u) db.uploads) not_found
  ok (object_of u)
