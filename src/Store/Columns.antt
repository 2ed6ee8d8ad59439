-- ===== src/Store/Columns.antt =====
-- The WHERE clauses of internal/store, as tests on a row.
use rosemary_virsree.Prelude.{Bool, ◌&&◌, List, [], if◌then◌else◌}
use rosemary_virsree.Prelude.Table.{update}
use rosemary_virsree.Prelude.Text.{Str, str_eq}
use rosemary_virsree.Model.{Bucket, StorageSource, Object, Upload, BucketDeletion, ready}

abbrev pub bucket_is : Str → Bucket → Bool
bucket_is id b = str_eq b.id id

abbrev pub source_is : Str → StorageSource → Bool
source_is id s = str_eq s.id id

abbrev pub object_is : Str → Object → Bool
object_is id o = str_eq o.id id

abbrev pub upload_is : Str → Upload → Bool
upload_is id u = str_eq u.id id

abbrev pub deletion_of : Str → BucketDeletion → Bool
deletion_of id d = str_eq d.bucket_id id

-- bucket_id=? AND logical_key=?
abbrev pub object_at : Str → Str → Object → Bool
object_at bucket key o = str_eq o.bucket_id bucket && str_eq o.logical_key key

abbrev pub upload_at : Str → Str → Upload → Bool
upload_at bucket key u = str_eq u.bucket_id bucket && str_eq u.logical_key key

abbrev pub is_ready : Object → Bool
is_ready o = str_eq o.status ready

abbrev pub object_in : Str → Object → Bool
object_in bucket o = str_eq o.bucket_id bucket

abbrev pub upload_in : Str → Upload → Bool
upload_in bucket u = str_eq u.bucket_id bucket

abbrev pub object_on : Str → Object → Bool
object_on source o = str_eq o.source_id source

abbrev pub upload_on : Str → Upload → Bool
upload_on source u = str_eq u.source_id source

-- An UPDATE of `storage_sources` that the code makes only if the source id is not "".
abbrev pub update_source :
    Str → (StorageSource → StorageSource) → List StorageSource → List StorageSource
update_source id f rows = if str_eq id [] then rows else update (source_is id) f rows
