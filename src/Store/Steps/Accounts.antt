-- ===== src/Store/Steps/Accounts.antt =====
-- Whatever transactions run, in whatever order and at whatever times, the accounts stay right.
use rosemary_virsree.Prelude.{
  ℕ, ◌≡◌, ◌≢◌, refl, some, List, [], ◌∷◌, ◌&&◌, arith, Option-cases, inl, inr,
}
use rosemary_virsree.Prelude.Text.{Str}
use rosemary_virsree.Prelude.Table.{find, total, count}
use rosemary_virsree.Prelude.Table.Rows.{find-and_unique}
use rosemary_virsree.Prelude.Table.Keyed.{key-find}
use rosemary_virsree.Prelude.Results.{Result, ok, err, ok-bind}
use rosemary_virsree.Model.{Bucket, StorageSource, Object, Upload, Db}
use rosemary_virsree.Store.Columns.{
  upload_is, upload_at, bucket_is, source_is, object_in, object_on, upload_in, upload_on,
}
use rosemary_virsree.Store.Upload.{get_upload, object_of}
use rosemary_virsree.Store.Commit.{commit_upload}
use rosemary_virsree.Store.Buckets.{update_bucket}
use rosemary_virsree.Store.Keys.{create_access_key, revoke_key, create_bootstrap, claim_bootstrap}
use rosemary_virsree.Store.Sources.{create_download_token, set_upload_transfer_hash}
use rosemary_virsree.Store.Links.{create_public_link, revoke_public_link}
use rosemary_virsree.Store.Deletion.{
  begin_bucket_deletion, prepare_bucket_deletion, prune_upload_grants, forget_upload_grant,
  bucket_deletion_error, update_bucket_cleanup_tombstone,
}
use rosemary_virsree.Store.Accounts.{Consistent}
use rosemary_virsree.Store.Accounts.Reserve.{reserve_object-Consistent}
use rosemary_virsree.Store.Accounts.Commit.{commit_upload-Consistent}
use rosemary_virsree.Store.Accounts.Release.{cancel_upload-Consistent, delete_object-Consistent}
use rosemary_virsree.Store.Accounts.Erase.{finish_bucket_deletion-Consistent}
use rosemary_virsree.Store.Accounts.Create.{
  create_bucket-Consistent, update_bucket-Consistent, create_storage_source-Consistent,
}
use rosemary_virsree.Store.Accounts.Keep.{
  Consistent-tables, update_storage_source-Consistent, rotate_physical_key-Consistent,
  set_upload_transfer_hash-Consistent,
}
use rosemary_virsree.Store.Steps.{Op, apply, settled, run, empty}

-- The four tables of the accounts are the same.
abbrev Same : Db → Db → Type 0
Same db db' =
    (db'.buckets ≡ db.buckets)
    × (db'.sources ≡ db.sources)
    × (db'.objects ≡ db.objects)
    × (db'.uploads ≡ db.uploads)

elsewhere : (db db' : Db) → Consistent db → Same db db' → Consistent db'
elsewhere db db' c (b, s, o, u) = Consistent-tables db db' b s o u c

commit-Consistent :
    (now : ℕ) (bucket id key physical etag : Str) (actual : ℕ) (db db' : Db)
    → Consistent db
    → apply now (Op.commit bucket id key physical etag actual) db ≡ ok db'
    → Consistent db'
unfolding apply get_upload
commit-Consistent now bucket id key physical etag actual db db' c h =
    elim (Option-cases (find (λ u. upload_at bucket key u && upload_is id u) db.uploads)) [
      | inl missing ↦ absurd (ground arith)
      | inr (u, found) ↦
          let row =
            find-and_unique (upload_at bucket key) (upload_is id) db.uploads u (c.upload_ids id)
              found in
          let o = record (object_of u) { physical_key = physical } in
          let named : u.id ≡ id = key-find Upload.id id db.uploads u row in
          let (r, e, committed) =
            ok-bind (λ r. ok r.db) (commit_upload now o etag actual db) (rw found at h) in
          let e' : r.db ≡ db' = cc in
          rw (← e') (
            commit_upload-Consistent now o etag actual u db r c (simp named row) refl refl
              committed)
    ]

apply-Consistent :
    (now : ℕ) (op : Op) (db db' : Db) → Consistent db → apply now op db ≡ ok db' → Consistent db'
unfolding apply
apply-Consistent now (Op.new_bucket b limit unlimited) db db' c h =
    create_bucket-Consistent b limit unlimited db db' c h
apply-Consistent now (Op.resize_bucket slug name visibility quota unlimited limit platform) db db' c
      h =
    let (r, e', e) =
      ok-bind (λ r. ok r.1) (update_bucket slug name visibility quota unlimited limit platform db)
        h in
    let e'' : r.1 ≡ db' = cc in
    rw (← e'')
      (update_bucket-Consistent slug name visibility quota unlimited limit platform db r c e)
apply-Consistent now (Op.new_key k) db db' c h =
    elsewhere db db' c (unfold create_access_key in ground arith)
apply-Consistent now (Op.revoke id) db db' c h =
    elsewhere db db' c (unfold revoke_key in ground arith)
apply-Consistent now (Op.new_bootstrap t) db db' c h =
    elsewhere db db' c (unfold create_bootstrap in ground arith)
apply-Consistent now (Op.claim hash) db db' c h =
    elsewhere db db' c (unfold claim_bootstrap in ground arith)
apply-Consistent now (Op.new_source v) db db' c h = create_storage_source-Consistent v db db' c h
apply-Consistent now (Op.change_source v) db db' c h = update_storage_source-Consistent v db db' c h
apply-Consistent now (Op.reserve o expires objects uploads) db db' c h =
    reserve_object-Consistent o expires objects uploads db db' c h
apply-Consistent now (Op.hash_upload id hash) db db' c h =
    let e : set_upload_transfer_hash id hash db ≡ db' = cc in
    rw (← e) (set_upload_transfer_hash-Consistent id hash db c)
apply-Consistent now (Op.commit bucket id key physical etag actual) db db' c h =
    commit-Consistent now bucket id key physical etag actual db db' c h
apply-Consistent now (Op.cancel id) db db' c h = cancel_upload-Consistent id db db' c h
apply-Consistent now (Op.delete id) db db' c h = delete_object-Consistent id db db' c h
apply-Consistent now (Op.rotate id physical generation) db db' c h =
    rotate_physical_key-Consistent now id physical generation db db' c h
apply-Consistent now (Op.new_link id object slug ttl expires) db db' c h =
    elsewhere db db' c (unfold create_public_link in ground arith)
apply-Consistent now (Op.revoke_link bucket slug) db db' c h =
    elsewhere db db' c (unfold revoke_public_link in ground arith)
apply-Consistent now (Op.new_token hash object expires) db db' c h =
    elsewhere db db' c (unfold create_download_token in ground arith)
apply-Consistent now (Op.prepare_deletion id hash ready expires) db db' c h =
    elsewhere db db' c (unfold prepare_bucket_deletion in ground arith)
apply-Consistent now (Op.begin_deletion id hash) db db' c h =
    elsewhere db db' c (unfold begin_bucket_deletion in ground arith)
apply-Consistent now (Op.finish_deletion id) db db' c h =
    finish_bucket_deletion-Consistent now id db db' c h
apply-Consistent now (Op.deletion_error id code) db db' c h =
    elsewhere db db' c (unfold bucket_deletion_error in ground arith)
apply-Consistent now (Op.sweep_tombstone id finished) db db' c h =
    elsewhere db db' c (unfold update_bucket_cleanup_tombstone in ground arith)
apply-Consistent now Op.prune_grants db db' c h =
    elsewhere db db' c (unfold prune_upload_grants in ground arith)
apply-Consistent now (Op.forget_grant id) db db' c h =
    elsewhere db db' c (unfold forget_upload_grant in ground arith)

settled-Consistent :
    (db : Db) (r : Result Db)
    → Consistent db
    → ((db' : Db) → r ≡ ok db' → Consistent db')
    → Consistent (settled db r)
settled-Consistent db (ok db') c keep = keep db' refl
settled-Consistent db (err e) c keep = c

-- From any database with right accounts, any history of transactions, at any times, failing or not,
-- ends in a database with right accounts.
pub run-Consistent : (ops : List (ℕ × Op)) (db : Db) → Consistent db → Consistent (run ops db)
unfolding run
run-Consistent [] db c = c
run-Consistent ((now, op) ∷ ops) db c =
    run-Consistent ops (settled db (apply now op db))
      (settled-Consistent db (apply now op db) c (λ db' h. apply-Consistent now op db db' c h))

pub empty-Consistent : Consistent empty
unfolding count find total
empty-Consistent = record {
  bucket_ids = λ i. omega arith;
  source_ids = λ i. omega arith;
  object_ids = λ i. omega arith;
  object_keys = λ i k. omega arith;
  upload_ids = λ i. omega arith;
  all_ready = refl;
  bucket_used = λ i b h. cc;
  bucket_reserved = λ i b h. cc;
  source_used = λ i s ne h. cc;
  source_reserved = λ i s ne h. cc;
  objects_housed = λ i h. refl;
  uploads_housed = λ i h. refl;
  objects_sourced = λ i ne h. refl;
  uploads_sourced = λ i ne h. refl;
}

-- After any history from the empty database, a bucket's used_bytes is the sum of the sizes of its
-- objects and its reserved_bytes the sum of what its pending uploads have reserved.
pub history_bucket_accounts :
    (ops : List (ℕ × Op)) (i : Str) (b : Bucket)
    → find (bucket_is i) (run ops empty).buckets ≡ some b
    → (b.used_bytes ≡ total (object_in i) Object.size (run ops empty).objects)
      × (b.reserved_bytes ≡ total (upload_in i) Upload.reserved_bytes (run ops empty).uploads)
history_bucket_accounts ops i b h =
    let c = run-Consistent ops empty empty-Consistent in
    (c.bucket_used i b h, c.bucket_reserved i b h)

-- After any history from the empty database, a storage source's used_bytes is the sum of the sizes
-- of the objects on it and its reserved_bytes the sum of what pending uploads have reserved on it.
pub history_source_accounts :
    (ops : List (ℕ × Op)) (i : Str) (s : StorageSource)
    → i ≢ []
    → find (source_is i) (run ops empty).sources ≡ some s
    → (s.used_bytes ≡ total (object_on i) Object.size (run ops empty).objects)
      × (s.reserved_bytes
          ≡ total (upload_on i) Upload.source_reserved_bytes (run ops empty).uploads)
history_source_accounts ops i s ne h =
    let c = run-Consistent ops empty empty-Consistent in
    (c.source_used i s ne h, c.source_reserved i s ne h)
