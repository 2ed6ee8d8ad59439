-- ===== src/Tests/Sample.antt =====
-- A bucket of 100 bytes on one source of 1000, with an object of 60 bytes.
use rosemary_virsree.Prelude.{ℕ, ◌≡◌, refl, subst, true, false, List, [], ◌∷◌}
use rosemary_virsree.Prelude.Int.{pos, ◌+ℤ◌, wrap64}
use rosemary_virsree.Prelude.Text.{Str, codes, str_eq, has_prefix, trim_prefix}
use rosemary_virsree.Prelude.Table.{find, any, select, remove, update, total, count}
use rosemary_virsree.Model.{Bucket, StorageSource, Object, Upload, UploadGrant, Db, ready}
use rosemary_virsree.Store.Upload.{new_upload, reserve_object, get_upload}
use rosemary_virsree.Store.Accounts.{Consistent}
use rosemary_virsree.Store.Steps.Accounts.{run-Consistent, empty-Consistent}
use rosemary_virsree.Store.Commit.{commit_upload, delete_object}
use rosemary_virsree.Store.Buckets.{allocated, create_bucket}
use rosemary_virsree.Store.Sources.{create_storage_source}
use rosemary_virsree.Store.Steps.{Op, apply, run, empty}

abbrev pub bkt : Str
bkt = codes "bkt_a"

abbrev pub src : Str
src = codes "src_a"

abbrev pub doc : Str
doc = codes "doc"

abbrev pub bucket : Bucket
bucket = record {
  deleting = false;
  id = bkt;
  name = codes "A";
  slug = codes "a-bucket";
  visibility = codes "public";
  quota_bytes = pos 100;
  quota_unlimited = false;
  used_bytes = 0;
  reserved_bytes = 0;
  created_at = 1;
}

abbrev pub source : StorageSource
source = record {
  id = src;
  name = codes "S";
  kind = codes "s3";
  priority = pos 0;
  capacity_bytes = pos 1000;
  capacity_unlimited = false;
  used_bytes = 0;
  reserved_bytes = 0;
  enabled = true;
  direct = true;
  cdn_enabled = false;
  config_cipher = [];
  created_at = 2;
}

abbrev pub intent : Str → Str → Str → ℕ → Object
intent id key physical size = record {
  id = id;
  bucket_id = bkt;
  source_id = src;
  logical_key = key;
  physical_key = physical;
  content_type = [];
  etag = [];
  status = [];
  size = size;
  generation = 0;
  public = false;
  created_at = 3;
  updated_at = 3;
}

abbrev pub first : Str
first = codes "obj_1"

abbrev pub second : Str
second = codes "obj_2"

-- The bucket and the source are made, and the document is uploaded.
abbrev pub setup : List (ℕ × Op)
setup =
    (1, Op.new_source source)
    ∷ (2, Op.new_bucket bucket (pos 500) false)
    ∷ (3, Op.reserve (intent first doc (codes "stage/1") 60) 1000 (pos 10) (pos 10))
    ∷ (4, Op.commit bkt first doc (codes "final/1") (codes "e1") 60)
    ∷ []

abbrev pub upload : Object
upload = intent second doc (codes "stage/2") 80

-- Then it is to be replaced by one of 80 bytes.
abbrev pub replacing : List (ℕ × Op)
replacing = (5, Op.reserve upload 2000 (pos 10) (pos 10)) ∷ []

abbrev pub document : Object
document = record (intent first doc (codes "final/1") 60) {
  etag = codes "e1";
  status = ready;
  generation = 1;
  updated_at = 4;
}

-- The sample's bucket and source before the replacement is reserved.
abbrev pub full : Bucket
full = record bucket { used_bytes = 60 }

abbrev pub full_source : StorageSource
full_source = record source { used_bytes = 60 }

abbrev pub first_grant : UploadGrant
first_grant = record { id = first; bucket_id = bkt; expires_at = 1000 }

-- After the setup.
abbrev pub before : Db
before = record empty {
  buckets = full ∷ [];
  sources = full_source ∷ [];
  objects = document ∷ [];
  upload_grants = first_grant ∷ [];
}

abbrev pub row : Upload
row = new_upload upload 20 20 2000

abbrev pub reserved : Bucket
reserved = record full { reserved_bytes = 20 }

-- After the setup and the reservation of the replacement.
abbrev pub sample : Db
sample = record before {
  buckets = reserved ∷ [];
  sources = record full_source { reserved_bytes = 20 } ∷ [];
  uploads = row ∷ [];
  upload_grants = record { id = second; bucket_id = bkt; expires_at = 2000 } ∷ first_grant ∷ [];
}

-- The functions on tables, texts and int64 values that a concrete run evaluates.
unfoldable pub tables : ℕ
unfolding find any select remove update total count str_eq has_prefix trim_prefix wrap64 ◌+ℤ◌
    allocated
tables = 0

unfoldable pub uploads : ℕ
unfolding tables run apply reserve_object commit_upload get_upload create_bucket
    create_storage_source delete_object
uploads = 0

run-before : run setup empty ≡ before
unfolding uploads
run-before = refl

run-sample : run replacing before ≡ sample
unfolding uploads
run-sample = refl

pub before-Consistent : Consistent before
before-Consistent = subst Consistent run-before (run-Consistent setup empty empty-Consistent)

pub sample-Consistent : Consistent sample
sample-Consistent = subst Consistent run-sample (run-Consistent replacing before before-Consistent)
