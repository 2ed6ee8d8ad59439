-- ===== src/Tests/Quotas.antt =====
-- The quota theorems at the sample database.
use rosemary_virsree.Prelude.{
  ℕ, ◌+◌, ◌-◌, ◌<◌, ◌≡◌, refl, subst, some, false, ◌&&◌, List, [], ◌∷◌, arith,
}
use rosemary_virsree.Prelude.Int.{pos, ◌≤ℤ◌, two_63}
use rosemary_virsree.Prelude.Text.{codes}
use rosemary_virsree.Prelude.Table.{find}
use rosemary_virsree.Prelude.Results.{ok}
use rosemary_virsree.Model.{Bucket, Object, Upload, Db, ready}
use rosemary_virsree.Store.Columns.{bucket_is, source_is, object_at}
use rosemary_virsree.Store.Upload.{new_upload, reserve_object, object_of}
use rosemary_virsree.Store.Commit.{Committed, old_size}
use rosemary_virsree.Store.Buckets.{update_bucket}
use rosemary_virsree.Store.Steps.{Op, run}
use rosemary_virsree.Store.Accounts.{Consistent}
use rosemary_virsree.Store.Steps.Accounts.{run-Consistent}
use rosemary_virsree.Store.Quota.Reserve.{
  wanted, source_wanted, reserve_object-within_quota, reserve_object-within_capacity,
  reserve_object-overflow,
}
use rosemary_virsree.Store.Quota.Commit.{commit_upload-moves, commit_upload-overdraws}
use rosemary_virsree.Store.Quota.Total.{allocated_all, update_bucket-within_total}
use rosemary_virsree.Tests.Sample.{
  bkt, src, doc, bucket, source, intent, first, row, upload, document, full, full_source, reserved,
  before, sample, sample-Consistent, tables, uploads,
}

reserve_object-within_quota_example :
    (find (bucket_is bkt) sample.buckets
      ≡ some (record full { reserved_bytes = full.reserved_bytes + wanted upload before }))
    × (pos (full.used_bytes + (full.reserved_bytes + wanted upload before)) ≤ℤ full.quota_bytes)
unfolding uploads
reserve_object-within_quota_example =
    reserve_object-within_quota upload 2000 (pos 10) (pos 10) before sample full refl refl
      (omega arith) refl

reserve_object-within_capacity_example :
    (find (λ s. source_is src s && s.enabled) sample.sources
      ≡ some (record full_source { reserved_bytes = 0 + source_wanted upload before }))
    × (pos (60 + (0 + source_wanted upload before)) ≤ℤ pos 1000)
unfolding uploads
reserve_object-within_capacity_example =
    reserve_object-within_capacity upload 2000 (pos 10) (pos 10) before sample full_source
      (ground arith) refl refl (omega arith) refl

-- An upload of 2^63 - 1 bytes to the legacy source, in a bucket of 100 bytes with 60 in use.
abbrev huge : Object
huge = record upload { logical_key = codes "huge"; source_id = []; size = two_63 - 1 }

reserve_object-overflow_example :
    (db' : Db) × (reserve_object huge 2000 (pos 10) (pos 10) before ≡ ok db')
unfolding tables
reserve_object-overflow_example =
    reserve_object-overflow huge 2000 (pos 10) (pos 10) 100 before full refl refl (omega arith)
      (omega arith) refl refl refl refl refl

-- What CommitUpload is given for the replacement: the row of the upload, under the final key.
abbrev final : Object
final = record (object_of row) { physical_key = codes "final/2" }

-- The replacement in the place of the document.
abbrev replaced_document : Object
replaced_document = record document {
  physical_key = codes "final/2";
  size = 80;
  etag = codes "e2";
  generation = 2;
  updated_at = 6;
}

abbrev done : Committed
done = record {
  object = replaced_document;
  old_physical = codes "final/1";
  old_source = src;
  db = record sample {
    buckets = record full { used_bytes = 80 } ∷ [];
    sources = record full_source { used_bytes = 80 } ∷ [];
    uploads = [];
    objects = replaced_document ∷ [];
  };
}

commit_upload-moves_example :
    (b' : Bucket) × (find (bucket_is bkt) done.db.buckets ≡ some b')
    × (b'.used_bytes + old_size (find (object_at bkt doc) sample.objects) ≡ 60 + 80)
    × (b'.reserved_bytes + 20 ≡ 20)
    × (b' ≡ record reserved { used_bytes = b'.used_bytes; reserved_bytes = b'.reserved_bytes })
unfolding uploads
commit_upload-moves_example =
    commit_upload-moves 6 final (codes "e2") 80 sample done reserved row sample-Consistent refl refl
      refl refl

-- The document is deleted and 80 other bytes are reserved before the replacement is committed.
abbrev third : Object
third = intent (codes "obj_3") (codes "other") (codes "stage/3") 80

abbrev race : List (ℕ × Op)
race = (6, Op.delete first) ∷ (7, Op.reserve third 3000 (pos 10) (pos 10)) ∷ []

abbrev filled : Bucket
filled = record bucket { reserved_bytes = 100 }

abbrev third_row : Upload
third_row = new_upload third 80 80 3000

abbrev raced : Db
raced = record sample {
  buckets = filled ∷ [];
  sources = record source { reserved_bytes = 100 } ∷ [];
  uploads = third_row ∷ row ∷ [];
  objects = [];
  upload_grants =
      record { id = third.id; bucket_id = bkt; expires_at = 3000 } ∷ sample.upload_grants;
}

run-raced : run race sample ≡ raced
unfolding uploads
run-raced = refl

raced-Consistent : Consistent raced
raced-Consistent = subst Consistent run-raced (run-Consistent race sample sample-Consistent)

abbrev new_document : Object
new_document = record final {
  size = 80;
  etag = codes "e2";
  status = ready;
  generation = 1;
  updated_at = 8;
}

abbrev overdrawn : Committed
overdrawn = record {
  object = new_document;
  old_physical = [];
  old_source = [];
  db = record raced {
    buckets = record bucket { used_bytes = 80; reserved_bytes = 80 } ∷ [];
    sources = record source { used_bytes = 80; reserved_bytes = 80 } ∷ [];
    uploads = third_row ∷ [];
    objects = new_document ∷ [];
  };
}

commit_upload-overdraws_example :
    (b' : Bucket) × (find (bucket_is bkt) overdrawn.db.buckets ≡ some b')
    × (b'.quota_bytes ≡ pos 100)
    × (b'.quota_unlimited ≡ false)
    × (100 < b'.used_bytes + b'.reserved_bytes)
unfolding uploads
commit_upload-overdraws_example =
    commit_upload-overdraws 8 final (codes "e2") 80 raced overdrawn filled row raced-Consistent refl
      refl refl refl 100 refl refl (omega arith) refl

abbrev other : Bucket
other = record bucket { id = codes "bkt_b"; slug = codes "b-bucket"; quota_bytes = pos 400 }

abbrev with_other : Db
with_other = record before { buckets = other ∷ full ∷ [] }

abbrev larger : Bucket
larger = record full { quota_bytes = pos 300 }

update_bucket-within_total_example : allocated_all (larger ∷ []) ≤ℤ pos 500
unfolding tables update_bucket
update_bucket-within_total_example =
    update_bucket-within_total bucket.slug bucket.name bucket.visibility (pos 300) (pos 500) false
      before (larger, record before { buckets = larger ∷ [] }) (ground arith) (ground arith) refl
