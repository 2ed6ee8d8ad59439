-- ===== src/Model.antt =====
-- internal/model/model.go, and the tables that internal/store/store.go creates in migrate. Bytes
-- that the code keeps from being negative are numbers; limits, quotas and capacities, which a
-- caller may send negative, are int64 values. A time is a number of nanoseconds.
pub mod Rows
pub use Rows.*
use rosemary_virsree.Prelude.{ℕ, Bool, Option, List}
use rosemary_virsree.Prelude.Text.{Str, codes}

-- The database. `audits` is left out: the code writes it and reads it only in a migration.
pub record Db : Type 0 where
  pub buckets : List Bucket
  pub access_keys : List AccessKey
  pub sources : List StorageSource
  pub objects : List Object
  pub uploads : List Upload
  pub bootstrap_tokens : List BootstrapToken
  pub public_links : List PublicLink
  pub transfer_tokens : List TransferToken
  pub bucket_deletions : List BucketDeletion
  pub confirmations : List Confirmation
  pub tombstones : List Tombstone
  pub upload_grants : List UploadGrant

abbrev pub ready : Str
ready = codes "ready"

abbrev pub pending : Str
pending = codes "pending"
