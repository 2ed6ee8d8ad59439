-- ===== src/Store/Steps.antt =====
-- Every transaction of internal/store that writes, and histories of them.
pub mod Accounts
pub mod Grants
pub mod Bootstrap
use rosemary_virsree.Prelude.{ℕ, Bool, Option, List, [], ◌∷◌}
use rosemary_virsree.Prelude.Int.{ℤ}
use rosemary_virsree.Prelude.Text.{Str}
use rosemary_virsree.Prelude.Table.{find}
use rosemary_virsree.Prelude.Results.{Result, ok, err, ◌>>=◌}
use rosemary_virsree.Model.{Bucket, AccessKey, StorageSource, Object, BootstrapToken, Upload, Db}
use rosemary_virsree.Store.Columns.{upload_is}
use rosemary_virsree.Store.Upload.{reserve_object, get_upload}
use rosemary_virsree.Store.Commit.{Committed, commit_upload, cancel_upload, delete_object}
use rosemary_virsree.Store.Buckets.{create_bucket, update_bucket}
use rosemary_virsree.Store.Keys.{create_access_key, revoke_key, create_bootstrap, claim_bootstrap}
use rosemary_virsree.Store.Sources.{
  create_storage_source, update_storage_source, rotate_physical_key, set_upload_transfer_hash,
  create_download_token,
}
use rosemary_virsree.Store.Links.{create_public_link, revoke_public_link}
use rosemary_virsree.Store.Deletion.{
  begin_bucket_deletion, prepare_bucket_deletion, finish_bucket_deletion, prune_upload_grants,
  forget_upload_grant, bucket_deletion_error, update_bucket_cleanup_tombstone,
}

-- One constructor for each transaction, with the arguments that the services pass. `commit` is
-- GetUpload followed by CommitUpload of the object that it read, under its final physical key.
pub data Op : Type 0 where
  new_bucket : Bucket → ℤ → Bool → Op
  resize_bucket : Str → Str → Str → ℤ → Bool → ℤ → Bool → Op
  new_key : AccessKey → Op
  revoke : Str → Op
  new_bootstrap : BootstrapToken → Op
  claim : Str → Op
  new_source : StorageSource → Op
  change_source : StorageSource → Op
  reserve : Object → ℕ → ℤ → ℤ → Op
  hash_upload : Str → Str → Op
  commit : Str → Str → Str → Str → Str → ℕ → Op
  cancel : Str → Op
  delete : Str → Op
  rotate : Str → Str → ℕ → Op
  new_link : Str → Str → Str → ℤ → Option ℕ → Op
  revoke_link : Str → Str → Op
  new_token : Str → Str → ℕ → Op
  prepare_deletion : Str → Str → ℕ → ℕ → Op
  begin_deletion : Str → Str → Op
  finish_deletion : Str → Op
  deletion_error : Str → Str → Op
  sweep_tombstone : Str → Bool → Op
  prune_grants : Op
  forget_grant : Str → Op

-- One transaction at the time `now`.
unfoldable pub apply : ℕ → Op → Db → Result Db
apply now (new_bucket b limit unlimited) db = create_bucket b limit unlimited db
apply now (resize_bucket slug name visibility quota unlimited limit platform) db = do
  r ← update_bucket slug name visibility quota unlimited limit platform db
  ok r.1
apply now (new_key k) db = create_access_key k db
apply now (revoke id) db = ok (revoke_key id db)
apply now (new_bootstrap t) db = create_bootstrap t db
apply now (claim hash) db = do r ← claim_bootstrap now hash db; ok r.1
apply now (new_source v) db = create_storage_source v db
apply now (change_source v) db = update_storage_source v db
apply now (reserve o expires max_objects max_pending) db =
    reserve_object o expires max_objects max_pending db
apply now (hash_upload id hash) db = ok (set_upload_transfer_hash id hash db)
apply now (commit bucket id key physical etag actual) db = do
  o ← get_upload bucket id key db
  r ← commit_upload now (record o { physical_key = physical }) etag actual db
  ok r.db
apply now (cancel id) db = cancel_upload id db
apply now (delete id) db = delete_object id db
apply now (rotate id physical generation) db = rotate_physical_key now id physical generation db
apply now (new_link id object slug ttl expires) db =
    create_public_link now id object slug ttl expires db
apply now (revoke_link bucket slug) db = revoke_public_link bucket slug db
apply now (new_token hash object expires) db = create_download_token now hash object expires db
apply now (prepare_deletion id hash ready expires) db =
    ok (prepare_bucket_deletion now id hash ready expires db).0
apply now (begin_deletion id hash) db = begin_bucket_deletion now id hash db
apply now (finish_deletion id) db = finish_bucket_deletion now id db
apply now (deletion_error id code) db = ok (bucket_deletion_error id code db)
apply now (sweep_tombstone id finished) db = ok (update_bucket_cleanup_tombstone now id finished db)
apply now prune_grants db = ok (prune_upload_grants now db)
apply now (forget_grant id) db = ok (forget_upload_grant id db)

-- A transaction that returns an error leaves the database as it was.
abbrev pub settled : Db → Result Db → Db
settled db (ok db') = db'
settled db (err _) = db

-- The database after a history of transactions, each with the time at which it ran.
unfoldable pub run : List (ℕ × Op) → Db → Db
run [] db = db
run ((now, op) ∷ ops) db = run ops (settled db (apply now op db))

abbrev pub empty : Db
empty = record {
  buckets = [];
  access_keys = [];
  sources = [];
  objects = [];
  uploads = [];
  bootstrap_tokens = [];
  public_links = [];
  transfer_tokens = [];
  bucket_deletions = [];
  confirmations = [];
  tombstones = [];
  upload_grants = [];
}
