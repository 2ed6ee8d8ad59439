-- ===== src/Store/Sources.antt =====
-- internal/store/platform.go and rotate.go: storage sources, relay tokens and physical keys.
use rosemary_virsree.Prelude.{ℕ, ◌+◌, Bool, not, ◌&&◌, none, some, [], ◌∷◌, if◌then◌else◌}
use rosemary_virsree.Prelude.Int.{pos, ltb_ℤ, wrap64}
use rosemary_virsree.Prelude.Text.{Str, codes, str_eq}
use rosemary_virsree.Prelude.Table.{find, any, update}
use rosemary_virsree.Prelude.Results.{
  Result, ok, ◌>>=◌, ◌>>◌, fail_if, scan, not_found, constraint, capacity_below_usage,
}
use rosemary_virsree.Model.{StorageSource, Object, TransferToken, Db}
use rosemary_virsree.Store.Columns.{source_is, object_is, upload_is, deletion_of, is_ready}
use rosemary_virsree.Store.Upload.{object_of}

-- The INSERT leaves `used_bytes` and `reserved_bytes` at their default 0.
unfoldable pub create_storage_source : StorageSource → Db → Result Db
create_storage_source v db = do
  fail_if (any (source_is v.id) db.sources) constraint
  ok (record db { sources = record v { used_bytes = 0; reserved_bytes = 0 } ∷ db.sources })

unfoldable pub get_storage_source : Str → Db → Result StorageSource
get_storage_source id db = scan (find (source_is id) db.sources) not_found

-- UPDATE storage_sources SET …: all columns but the counters and the birth date.
abbrev pub reconfigure : StorageSource → StorageSource → StorageSource
reconfigure v s = record v {
  id = s.id;
  used_bytes = s.used_bytes;
  reserved_bytes = s.reserved_bytes;
  created_at = s.created_at;
}

unfoldable pub update_storage_source : StorageSource → Db → Result Db
unfolding get_storage_source
update_storage_source v db = do
  s ← get_storage_source v.id db
  fail_if
      (not v.capacity_unlimited
        && ltb_ℤ v.capacity_bytes (wrap64 (pos (s.used_bytes + s.reserved_bytes))))
      capacity_below_usage
  ok (record db { sources = update (source_is v.id) (reconfigure v) db.sources })

unfoldable pub has_unlimited_buckets : Db → Bool
has_unlimited_buckets db = any (λ b. b.quota_unlimited) db.buckets

unfoldable pub storage_configured : Db → Bool
storage_configured db = any (λ s. s.enabled) db.sources

unfoldable pub rotate_physical_key : ℕ → Str → Str → ℕ → Db → Result Db
rotate_physical_key now id new_key generation db = do
  fail_if
      (any (object_is id) db.objects
        && any (λ o. str_eq o.physical_key new_key && not (object_is id o)) db.objects)
      constraint
  ok (record db {
    objects =
        update (object_is id)
          (λ o. record o { physical_key = new_key; generation = generation; updated_at = now })
          db.objects;
  })

unfoldable pub set_upload_transfer_hash : Str → Str → Db → Db
set_upload_transfer_hash id hash db = record db {
  uploads = update (upload_is id) (λ u. record u { transfer_hash = hash }) db.uploads;
}

-- The upload and its expiry, unless its bucket is being deleted.
unfoldable pub upload_by_transfer_hash : Str → Db → Result (Object × ℕ)
upload_by_transfer_hash hash db = do
  u ←
      scan
        (find
          (λ u.
            str_eq u.transfer_hash hash && not (any (deletion_of u.bucket_id) db.bucket_deletions))
          db.uploads)
        not_found
  ok (object_of u, u.expires_at)

abbrev pub download : Str
download = codes "download"

-- INSERT … SELECT … FROM objects WHERE id=? AND status='ready'; no such object writes no row.
unfoldable pub create_download_token : ℕ → Str → Str → ℕ → Db → Result Db
create_download_token now hash object_id expires db =
    elim (find (λ o. object_is object_id o && is_ready o) db.objects) [
      | none ↦ ok db
      | some o ↦ do
        fail_if (any (λ t. str_eq t.token_hash hash) db.transfer_tokens) constraint
        ok (record db {
          transfer_tokens =
              record {
                token_hash = hash;
                object_id = o.id;
                source_id = o.source_id;
                physical_key = o.physical_key;
                size = o.size;
                content_type = o.content_type;
                etag = o.etag;
                mode = download;
                expires_at = expires;
                created_at = now;
              }
              ∷ db.transfer_tokens;
        })
    ]

-- What a token without a physical key of its own takes from its object.
abbrev pub snapshot : TransferToken → Object → Object
snapshot t o = record o {
  source_id = if str_eq t.source_id [] then o.source_id else t.source_id;
  physical_key = if str_eq t.physical_key [] then o.physical_key else t.physical_key;
  size = if str_eq t.physical_key [] then o.size else t.size;
  content_type = if str_eq t.physical_key [] then o.content_type else t.content_type;
  etag = if str_eq t.physical_key [] then o.etag else t.etag;
}

unfoldable pub download_by_transfer_hash : Str → Db → Result (Object × ℕ)
download_by_transfer_hash hash db = do
  t ←
      scan (find (λ t. str_eq t.token_hash hash && str_eq t.mode download) db.transfer_tokens)
        not_found
  o ← scan (find (object_is t.object_id) db.objects) not_found
  fail_if (any (deletion_of o.bucket_id) db.bucket_deletions) not_found
  ok (snapshot t o, t.expires_at)
