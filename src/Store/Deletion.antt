-- ===== src/Store/Deletion.antt =====
-- internal/store/bucket_delete.go: deleting a bucket in two steps, and the tombstones that follow.
pub mod Waits
pub mod Active
pub mod Finish
use rosemary_virsree.Prelude.{
  ℕ, ◌+◌, ◌*◌, Bool, true, not, ◌&&◌, ◌||◌, List, [], ◌∷◌, ltb, if◌then◌else◌,
}
use rosemary_virsree.Prelude.Int.{max0_sub}
use rosemary_virsree.Prelude.Text.{Str, str_eq}
use rosemary_virsree.Prelude.Table.{find, any, remove, update, total}
use rosemary_virsree.Prelude.Results.{
  Result, ok, err, ◌>>=◌, ◌>>◌, fail_if, scan, not_found, constraint, confirmation_invalid,
  confirmation_wait, confirmation_expired, grants_alive,
}
use rosemary_virsree.Model.{Object, Upload, StorageSource, Tombstone, UploadGrant, Db}
use rosemary_virsree.Store.Columns.{
  bucket_is, deletion_of, is_ready, object_in, upload_in, object_on, upload_on,
}

abbrev pub second : ℕ
second = 1000000000

abbrev pub minute : ℕ
minute = 60 * second

abbrev pub week : ℕ
week = 7 * 24 * 60 * minute

-- The loop over the bucket's upload grants: the latest `expires_at` plus a minute, or `after`.
unfoldable pub latest_grant : Str → List UploadGrant → ℕ → ℕ
latest_grant id [] after = after
latest_grant id (g ∷ grants) after = latest_grant id grants (
    if str_eq g.bucket_id id && ltb after (g.expires_at + minute)
    then g.expires_at + minute
    else after)

-- object_id IN (SELECT id FROM objects WHERE bucket_id=?)
abbrev pub of_bucket : Str → Db → Str → Bool
of_bucket id db object_id = any (λ o. object_in id o && str_eq o.id object_id) db.objects

abbrev pub start_deletion : ℕ → Str → Db → Db
start_deletion now id db = record db {
  confirmations = remove (λ c. str_eq c.bucket_id id) db.confirmations;
  bucket_deletions =
      record {
        bucket_id = id;
        requested_at = now;
        cleanup_after = latest_grant id db.upload_grants now;
        last_error_code = [];
      }
      ∷ db.bucket_deletions;
  access_keys =
      update (λ k. str_eq k.bucket_id id) (λ k. record k { revoked = true }) db.access_keys;
  public_links =
      update (λ l. of_bucket id db l.object_id) (λ l. record l { revoked = true }) db.public_links;
}

-- A deletion that is already recorded is left as it is.
unfoldable pub begin_bucket_deletion : ℕ → Str → Str → Db → Result Db
unfolding latest_grant
begin_bucket_deletion now id hash db =
    if any (deletion_of id) db.bucket_deletions then ok db else do
      c ←
          scan (find (λ c. str_eq c.bucket_id id && str_eq c.token_hash hash) db.confirmations)
            confirmation_invalid
      fail_if (ltb now c.ready_at) confirmation_wait
      fail_if (not (ltb now c.expires_at)) confirmation_expired
      fail_if (not (any (bucket_is id) db.buckets)) constraint
      ok (start_deletion now id db)

-- Two statements without a transaction: the DELETE stands where the INSERT fails.
unfoldable pub prepare_bucket_deletion : ℕ → Str → Str → ℕ → ℕ → Db → Db × Result (Unit {0})
prepare_bucket_deletion now id hash ready expires db =
    let kept = remove (λ c. ltb c.expires_at now) db.confirmations in
    if any (λ c. str_eq c.token_hash hash) kept || not (any (bucket_is id) db.buckets)
    then (record db { confirmations = kept }, err constraint)
    else (
      record db {
        confirmations =
            record { token_hash = hash; bucket_id = id; ready_at = ready; expires_at = expires }
            ∷ kept;
      },
      ok tt,
    )

-- The bucket's share of a source's accounts leaves them.
abbrev pub release_share : Str → Db → StorageSource → StorageSource
release_share id db s = record s {
  used_bytes =
      max0_sub s.used_bytes
        (total (λ o. object_in id o && (object_on s.id o && is_ready o)) Object.size db.objects);
  reserved_bytes =
      max0_sub s.reserved_bytes
        (total (λ u. upload_in id u && upload_on s.id u) Upload.source_reserved_bytes db.uploads);
}

-- INSERT OR IGNORE
abbrev pub bury : Str → ℕ → List Tombstone → List Tombstone
bury id now rows =
    if any (λ t. str_eq t.bucket_id id) rows
    then rows
    else record { bucket_id = id; until_at = now + week; next_at = now + 15 * minute } ∷ rows

-- The writes of FinishBucketDeletion.
abbrev pub erase_bucket : ℕ → Str → Db → Db
erase_bucket now id db = record db {
  tombstones = bury id now db.tombstones;
  sources = update (λ _. true) (release_share id db) db.sources;
  public_links = remove (λ l. of_bucket id db l.object_id) db.public_links;
  transfer_tokens = remove (λ t. of_bucket id db t.object_id) db.transfer_tokens;
  confirmations = remove (λ c. str_eq c.bucket_id id) db.confirmations;
  access_keys = remove (λ k. str_eq k.bucket_id id) db.access_keys;
  uploads = remove (upload_in id) db.uploads;
  upload_grants = remove (λ g. str_eq g.bucket_id id) db.upload_grants;
  objects = remove (object_in id) db.objects;
  bucket_deletions = remove (deletion_of id) db.bucket_deletions;
  buckets = remove (bucket_is id) db.buckets;
}

unfoldable pub finish_bucket_deletion : ℕ → Str → Db → Result Db
finish_bucket_deletion now id db = do
  d ← scan (find (deletion_of id) db.bucket_deletions) not_found
  fail_if (ltb now d.cleanup_after) grants_alive
  ok (erase_bucket now id db)

unfoldable pub prune_upload_grants : ℕ → Db → Db
prune_upload_grants now db = record db {
  upload_grants =
      remove
        (λ g.
          ltb (g.expires_at + minute) now
          && not (any (deletion_of g.bucket_id) db.bucket_deletions))
        db.upload_grants;
}

unfoldable pub forget_upload_grant : Str → Db → Db
forget_upload_grant id db = record db {
  upload_grants = remove (λ g. str_eq g.id id) db.upload_grants;
}

unfoldable pub bucket_deletion_error : Str → Str → Db → Db
bucket_deletion_error id code db = record db {
  bucket_deletions =
      update (deletion_of id) (λ d. record d { last_error_code = code }) db.bucket_deletions;
}

unfoldable pub update_bucket_cleanup_tombstone : ℕ → Str → Bool → Db → Db
update_bucket_cleanup_tombstone now id finished db =
    if finished
    then record db { tombstones = remove (λ t. str_eq t.bucket_id id) db.tombstones }
    else record db {
      tombstones =
          update (λ t. str_eq t.bucket_id id) (λ t. record t { next_at = now + 15 * minute })
            db.tombstones;
    }
