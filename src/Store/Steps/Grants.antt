-- ===== src/Store/Steps/Grants.antt =====
-- The cleanup of a bucket never runs while an upload grant of the bucket may still be used.
use rosemary_virsree.Prelude.{
  ℕ, ◌+◌, ◌≤◌, ◌≡◌, refl, false, not, ◌&&◌, some, List, [], ◌∷◌, arith, ltb, Option-cases,
  Bool-cases, inl, inr, if◌then◌else◌,
}
use rosemary_virsree.Prelude.Int.{ℤ}
use rosemary_virsree.Prelude.Text.{Str, str_eq, str_eq_iff}
use rosemary_virsree.Prelude.Table.{find, any, count}
use rosemary_virsree.Prelude.Table.Rows.{
  count-remove-le, find-remove_self, find-remove_ne, find-count_zero, count-any-false,
}
use rosemary_virsree.Prelude.Table.Keyed.{found-update}
use rosemary_virsree.Prelude.Results.{Result, ok, err}
use rosemary_virsree.Model.{Object, BucketDeletion, UploadGrant, Db}
use rosemary_virsree.Store.Columns.{deletion_of}
use rosemary_virsree.Store.Upload.{
  to_reserve, old_source, insert_upload, reserve_object, get_upload,
}
use rosemary_virsree.Store.Commit.{commit_upload, cancel_upload, delete_object}
use rosemary_virsree.Store.Buckets.{create_bucket, update_bucket}
use rosemary_virsree.Store.Keys.{create_access_key, revoke_key, create_bootstrap, claim_bootstrap}
use rosemary_virsree.Store.Sources.{
  create_storage_source, update_storage_source, rotate_physical_key, set_upload_transfer_hash,
  create_download_token,
}
use rosemary_virsree.Store.Links.{create_public_link, revoke_public_link}
use rosemary_virsree.Store.Deletion.{
  minute, begin_bucket_deletion, prepare_bucket_deletion, finish_bucket_deletion,
  prune_upload_grants, forget_upload_grant, bucket_deletion_error, update_bucket_cleanup_tombstone,
  start_deletion, erase_bucket, latest_grant,
}
use rosemary_virsree.Store.Accounts.Reserve.{reserve_object-Reserves}
use rosemary_virsree.Store.Deletion.Waits.{
  outlives, outlives-latest_grant, begin_bucket_deletion-confirmed,
}
use rosemary_virsree.Store.Steps.{Op, apply, settled, run, empty}

-- Every recorded deletion waits for every grant of its bucket.
abbrev pub GrantsCovered : Db → Type 0
GrantsCovered db =
    (id : Str) (d : BucketDeletion)
    → find (deletion_of id) db.bucket_deletions ≡ some d
    → count (outlives id d.cleanup_after) db.upload_grants ≡ 0

outlives_later :
    (id : Str) (after now : ℕ) (grants : List UploadGrant)
    → after ≤ now
    → count (outlives id after) grants ≡ 0
    → count (outlives id now) grants ≡ 0
unfolding count
outlives_later id after now [] h e = refl
outlives_later id after now (g ∷ grants) h e = ground (arith, outlives_later id after now grants)

-- Neither the deletions nor the grants have changed.
abbrev Same : Db → Db → Type 0
Same db db' = (db'.bucket_deletions ≡ db.bucket_deletions) × (db'.upload_grants ≡ db.upload_grants)

same : (db db' : Db) → GrantsCovered db → Same db db' → GrantsCovered db'
same db db' c (d, g) id x h = rw g (c id x (rw d at h))

reserve-GrantsCovered :
    (o : Object) (n m e : ℕ) (db : Db)
    → GrantsCovered db
    → any (deletion_of o.bucket_id) db.bucket_deletions ≡ false
    → GrantsCovered (insert_upload o n m e db)
reserve-GrantsCovered o n m e db c active id d h =
    let none_here =
      find-count_zero (deletion_of o.bucket_id) db.bucket_deletions
        (count-any-false (deletion_of o.bucket_id) db.bucket_deletions active) in
    unfold count in ground (arith, c id d h, str_eq_iff o.bucket_id id)

start-GrantsCovered :
    (now : ℕ) (id : Str) (db : Db) → GrantsCovered db → GrantsCovered (start_deletion now id db)
start-GrantsCovered now id db c j d found = elim (Bool-cases (str_eq id j)) [
  | inl this ↦
      let e : latest_grant id db.upload_grants now ≡ d.cleanup_after =
        unfold find in ground arith in
      rw (← (str_eq_iff id j).0 this, ← e) (outlives-latest_grant id db.upload_grants now)
  | inr other ↦ c j d (unfold find in ground arith)
]

begin-GrantsCovered :
    (now : ℕ) (id hash : Str) (db db' : Db)
    → GrantsCovered db
    → begin_bucket_deletion now id hash db ≡ ok db'
    → GrantsCovered db'
begin-GrantsCovered now id hash db db' c h j d found =
    elim (begin_bucket_deletion-confirmed now id hash db db' h) [
      | inl (old, e) ↦ rw e (c j d (rw e at found))
      | inr (x, _, _, _, e) ↦ rw e (start-GrantsCovered now id db c j d (rw e at found))
    ]

erase-GrantsCovered :
    (now : ℕ) (id : Str) (db : Db) → GrantsCovered db → GrantsCovered (erase_bucket now id db)
erase-GrantsCovered now id db c j d found = elim (Bool-cases (str_eq id j)) [
  | inl this ↦ absurd (
      ground
        (arith, (str_eq_iff id j).0 this, find-remove_self (deletion_of id) db.bucket_deletions))
  | inr other ↦
      let found' : find (deletion_of j) db.bucket_deletions ≡ some d = ground (
        arith,
        find-remove_ne (deletion_of j) (deletion_of id)
            (λ x e.
              ground (arith, str_eq_iff x.bucket_id j, str_eq_iff x.bucket_id id, str_eq_iff id j))
            db.bucket_deletions,
      ) in
      omega (
        arith,
        c j d found',
        count-remove-le (outlives j d.cleanup_after) (λ g. str_eq g.bucket_id id) db.upload_grants,
      )
]

error-GrantsCovered :
    (id code : Str) (db : Db) → GrantsCovered db → GrantsCovered (bucket_deletion_error id code db)
unfolding bucket_deletion_error
error-GrantsCovered id code db c j d found =
    let (d', found', e) =
      found-update BucketDeletion.bucket_id (λ d. record d { last_error_code = code }) (λ _. refl)
        id j db.bucket_deletions d found in
    let e' : d.cleanup_after ≡ d'.cleanup_after = ground arith in rw e' (c j d' found')

prune-GrantsCovered :
    (now : ℕ) (db : Db) → GrantsCovered db → GrantsCovered (prune_upload_grants now db)
unfolding prune_upload_grants
prune-GrantsCovered now db c j d found = omega (
  arith,
  c j d found,
  count-remove-le (outlives j d.cleanup_after)
      (λ g.
        ltb (g.expires_at + minute) now && not (any (deletion_of g.bucket_id) db.bucket_deletions))
      db.upload_grants,
)

forget-GrantsCovered :
    (id : Str) (db : Db) → GrantsCovered db → GrantsCovered (forget_upload_grant id db)
unfolding forget_upload_grant
forget-GrantsCovered id db c j d found = omega (
  arith,
  c j d found,
  count-remove-le (outlives j d.cleanup_after) (λ g. str_eq g.id id) db.upload_grants,
)

reserve_object-active :
    (o : Object) (e : ℕ) (objects uploads : ℤ) (db db' : Db)
    → reserve_object o e objects uploads db ≡ ok db'
    → any (deletion_of o.bucket_id) db.bucket_deletions ≡ false
unfolding reserve_object
reserve_object-active o e objects uploads db db' h = ground arith

apply-GrantsCovered :
    (now : ℕ) (op : Op) (db db' : Db)
    → GrantsCovered db
    → apply now op db ≡ ok db'
    → GrantsCovered db'
unfolding apply
apply-GrantsCovered now (Op.reserve o expires objects uploads) db db' c h =
    let r = reserve_object-Reserves o expires objects uploads db db' h in
    rw r.writes (
      reserve-GrantsCovered o (to_reserve o.size r.old)
        (if str_eq (old_source r.old) o.source_id then to_reserve o.size r.old else o.size) expires
        db c (reserve_object-active o expires objects uploads db db' h))
apply-GrantsCovered now (Op.begin_deletion id hash) db db' c h =
    begin-GrantsCovered now id hash db db' c h
apply-GrantsCovered now (Op.finish_deletion id) db db' c h =
    let e : db' ≡ erase_bucket now id db = unfold finish_bucket_deletion in ground arith in
    rw e (erase-GrantsCovered now id db c)
apply-GrantsCovered now (Op.deletion_error id code) db db' c h =
    let e : bucket_deletion_error id code db ≡ db' = cc in
    rw (← e) (error-GrantsCovered id code db c)
apply-GrantsCovered now Op.prune_grants db db' c h =
    let e : prune_upload_grants now db ≡ db' = cc in rw (← e) (prune-GrantsCovered now db c)
apply-GrantsCovered now (Op.forget_grant id) db db' c h =
    let e : forget_upload_grant id db ≡ db' = cc in rw (← e) (forget-GrantsCovered id db c)
apply-GrantsCovered now (Op.new_bucket b limit unlimited) db db' c h =
    same db db' c (unfold create_bucket in ground arith)
apply-GrantsCovered now (Op.resize_bucket slug name visibility quota unlimited limit platform) db
      db' c h =
    same db db' c (unfold update_bucket in ground arith)
apply-GrantsCovered now (Op.new_key k) db db' c h =
    same db db' c (unfold create_access_key in ground arith)
apply-GrantsCovered now (Op.revoke id) db db' c h =
    same db db' c (unfold revoke_key in ground arith)
apply-GrantsCovered now (Op.new_bootstrap t) db db' c h =
    same db db' c (unfold create_bootstrap in ground arith)
apply-GrantsCovered now (Op.claim hash) db db' c h =
    same db db' c (unfold claim_bootstrap in ground arith)
apply-GrantsCovered now (Op.new_source v) db db' c h =
    same db db' c (unfold create_storage_source in ground arith)
apply-GrantsCovered now (Op.change_source v) db db' c h =
    same db db' c (unfold update_storage_source in ground arith)
apply-GrantsCovered now (Op.hash_upload id hash) db db' c h =
    same db db' c (unfold set_upload_transfer_hash in ground arith)
apply-GrantsCovered now (Op.commit bucket id key physical etag actual) db db' c h =
    same db db' c (unfold get_upload commit_upload in ground arith)
apply-GrantsCovered now (Op.cancel id) db db' c h =
    same db db' c (unfold cancel_upload in ground arith)
apply-GrantsCovered now (Op.delete id) db db' c h =
    same db db' c (unfold delete_object in ground arith)
apply-GrantsCovered now (Op.rotate id physical generation) db db' c h =
    same db db' c (unfold rotate_physical_key in ground arith)
apply-GrantsCovered now (Op.new_link id object slug ttl expires) db db' c h =
    same db db' c (unfold create_public_link in ground arith)
apply-GrantsCovered now (Op.revoke_link bucket slug) db db' c h =
    same db db' c (unfold revoke_public_link in ground arith)
apply-GrantsCovered now (Op.new_token hash object expires) db db' c h =
    same db db' c (unfold create_download_token in ground arith)
apply-GrantsCovered now (Op.prepare_deletion id hash ready expires) db db' c h =
    same db db' c (unfold prepare_bucket_deletion in ground arith)
apply-GrantsCovered now (Op.sweep_tombstone id finished) db db' c h =
    same db db' c (unfold update_bucket_cleanup_tombstone in ground arith)

settled-GrantsCovered :
    (db : Db) (r : Result Db)
    → GrantsCovered db
    → ((db' : Db) → r ≡ ok db' → GrantsCovered db')
    → GrantsCovered (settled db r)
settled-GrantsCovered db (ok db') c keep = keep db' refl
settled-GrantsCovered db (err e) c keep = c

run-GrantsCovered : (ops : List (ℕ × Op)) (db : Db) → GrantsCovered db → GrantsCovered (run ops db)
unfolding run
run-GrantsCovered [] db c = c
run-GrantsCovered ((now, op) ∷ ops) db c =
    run-GrantsCovered ops (settled db (apply now op db)) (
      settled-GrantsCovered db (apply now op db) c (λ db' h. apply-GrantsCovered now op db db' c h))

-- After any history from the empty database, FinishBucketDeletion at the time `now` succeeds only
-- if every upload grant of the bucket has been expired for a minute.
pub finish_waits_for_grants :
    (ops : List (ℕ × Op)) (now : ℕ) (id : Str) (db' : Db)
    → finish_bucket_deletion now id (run ops empty) ≡ ok db'
    → count (outlives id now) (run ops empty).upload_grants ≡ 0
unfolding finish_bucket_deletion count
finish_waits_for_grants ops now id db' h =
    let covered = run-GrantsCovered ops empty (λ i d e. refl) in
    elim (Option-cases (find (deletion_of id) (run ops empty).bucket_deletions)) [
      | inl missing ↦ absurd (ground arith)
      | inr (d, found) ↦
          let late : d.cleanup_after ≤ now = ground arith in
          outlives_later id d.cleanup_after now (run ops empty).upload_grants late
            (covered id d found)
    ]
