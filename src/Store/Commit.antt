-- ===== src/Store/Commit.antt =====
-- internal/store/store.go: CommitUpload, CancelUpload, GetObject and DeleteObject.
use rosemary_virsree.Prelude.{
  ℕ, ◌+◌, Bool, false, not, ◌&&◌, ◌||◌, Option, none, some, List, [], ◌∷◌, ◌++◌, if◌then◌else◌,
}
use rosemary_virsree.Prelude.Int.{pos, pos_part, ltb_ℤ, wrap64, max0_sub}
use rosemary_virsree.Prelude.Text.{Str, codes, str_eq, trim_prefix}
use rosemary_virsree.Prelude.Table.{find, any, remove, update}
use rosemary_virsree.Prelude.Results.{Result, ok, ◌>>=◌, ◌>>◌, fail_if, scan, not_found, constraint}
use rosemary_virsree.Model.{Bucket, StorageSource, Object, Upload, Db, ready}
use rosemary_virsree.Store.Columns.{
  bucket_is, object_is, upload_is, object_at, is_ready, update_source,
}
use rosemary_virsree.Store.Upload.{require_active_bucket}

-- secretID
unfoldable pub secret_id : Str → Str
secret_id upload_id = codes "obj_" ++ trim_prefix upload_id (codes "obj_")

-- The row that the upload replaces, as the zero Object where there is none: its id is "".
abbrev pub old_id : Option Object → Str
old_id none = []
old_id (some o) = o.id

abbrev pub old_size : Option Object → ℕ
old_size none = 0
old_size (some o) = o.size

abbrev pub old_generation : Option Object → ℕ
old_generation none = 0
old_generation (some o) = o.generation

abbrev pub old_physical : Option Object → Str
old_physical none = []
old_physical (some o) = o.physical_key

abbrev pub old_created : Option Object → ℕ
old_created none = 0
old_created (some o) = o.created_at

abbrev pub held_on : Option Object → Str
held_on none = []
held_on (some o) = o.source_id

-- `old.Generation + 1`, set to 1 where the int64 has wrapped.
unfoldable pub next_generation : ℕ → ℕ
next_generation n = let g = wrap64 (pos (n + 1)) in if ltb_ℤ g (pos 1) then 1 else pos_part g

-- The row of the INSERT, with the identity and the birth date of the object that it replaces.
unfoldable pub committed : ℕ → Object → Str → ℕ → Option Object → Object
unfolding secret_id next_generation
committed now upload etag actual old = record upload {
  id = if str_eq (old_id old) [] then secret_id upload.id else old_id old;
  size = actual;
  etag = etag;
  status = ready;
  generation = next_generation (old_generation old);
  created_at = if str_eq (old_id old) [] then upload.created_at else old_created old;
  updated_at = now;
}

-- ON CONFLICT(bucket_id,logical_key) DO UPDATE SET …
abbrev pub overwrite : Object → Object → Object
overwrite new row = record row {
  source_id = new.source_id;
  physical_key = new.physical_key;
  size = new.size;
  content_type = new.content_type;
  etag = new.etag;
  status = ready;
  generation = new.generation;
  updated_at = new.updated_at;
}

-- The INSERT with its conflict clause. A new row has the default `is_public`.
abbrev pub upsert : Object → Option Object → List Object → List Object
upsert new none rows = record new { public = false } ∷ rows
upsert new (some _) rows = update (object_at new.bucket_id new.logical_key) (overwrite new) rows

-- What the constraints of `objects` refuse: another row's physical key, and for a new row its id.
abbrev pub object_clashes : Object → Option Object → List Object → Bool
object_clashes new none rows =
    any (λ o. str_eq o.physical_key new.physical_key) rows || any (object_is new.id) rows
object_clashes new (some _) rows =
    any
      (λ o.
        str_eq o.physical_key new.physical_key && not (object_at new.bucket_id new.logical_key o))
      rows

abbrev pub settle_bucket : ℕ → ℕ → ℕ → Bucket → Bucket
settle_bucket reserved old actual b = record b {
  reserved_bytes = max0_sub b.reserved_bytes reserved;
  used_bytes = max0_sub b.used_bytes old + actual;
}

abbrev pub settle_source : ℕ → ℕ → StorageSource → StorageSource
settle_source reserved actual s = record s {
  reserved_bytes = max0_sub s.reserved_bytes reserved;
  used_bytes = s.used_bytes + actual;
}

abbrev pub release_source : ℕ → StorageSource → StorageSource
release_source size s = record s { used_bytes = max0_sub s.used_bytes size }

-- The writes of CommitUpload.
abbrev pub settle : Object → Object → ℕ → Upload → Option Object → Db → Db
settle upload new actual u old db = record db {
  objects = upsert new old db.objects;
  buckets =
      update (bucket_is upload.bucket_id) (settle_bucket u.reserved_bytes (old_size old) actual)
        db.buckets;
  uploads = remove (upload_is upload.id) db.uploads;
  sources =
      update_source (held_on old) (release_source (old_size old))
        (update_source upload.source_id (settle_source u.source_reserved_bytes actual) db.sources);
}

-- The committed object, the physical key and the source of the object that it replaces, and the
-- database.
pub record Committed : Type 0 where
  pub object : Object
  pub old_physical : Str
  pub old_source : Str
  pub db : Db

unfoldable pub commit_upload : ℕ → Object → Str → ℕ → Db → Result Committed
unfolding require_active_bucket committed
commit_upload now upload etag actual db = do
  require_active_bucket upload.bucket_id db
  u ← scan (find (upload_is upload.id) db.uploads) not_found
  let old = find (object_at upload.bucket_id upload.logical_key) db.objects
  let new = committed now upload etag actual old
  fail_if (object_clashes new old db.objects) constraint
  ok (record {
    object = new;
    old_physical = old_physical old;
    old_source = held_on old;
    db = settle upload new actual u old db;
  })

abbrev pub unreserve_bucket : ℕ → Bucket → Bucket
unreserve_bucket n b = record b { reserved_bytes = max0_sub b.reserved_bytes n }

abbrev pub unreserve_source : ℕ → StorageSource → StorageSource
unreserve_source n s = record s { reserved_bytes = max0_sub s.reserved_bytes n }

unfoldable pub cancel_upload : Str → Db → Result Db
cancel_upload id db = do
  u ← scan (find (upload_is id) db.uploads) not_found
  ok (record db {
    uploads = remove (upload_is id) db.uploads;
    buckets = update (bucket_is u.bucket_id) (unreserve_bucket u.reserved_bytes) db.buckets;
    sources = update_source u.source_id (unreserve_source u.source_reserved_bytes) db.sources;
  })

unfoldable pub get_object : Str → Str → Db → Result Object
get_object bucket key db = scan (find (object_at bucket key) db.objects) not_found

abbrev pub release_bucket : ℕ → Bucket → Bucket
release_bucket size b = record b { used_bytes = max0_sub b.used_bytes size }

unfoldable pub delete_object : Str → Db → Result Db
delete_object id db = do
  o ← scan (find (object_is id) db.objects) not_found
  ok (record db {
    public_links = remove (λ l. str_eq l.object_id id) db.public_links;
    transfer_tokens = remove (λ t. str_eq t.object_id id) db.transfer_tokens;
    objects = remove (object_is id) db.objects;
    buckets =
        update (bucket_is o.bucket_id)
          (if is_ready o then release_bucket o.size else unreserve_bucket o.size) db.buckets;
    sources =
        if is_ready o
        then update_source o.source_id (release_source o.size) db.sources
        else db.sources;
  })
