-- ===== src/Model/Rows.antt =====
-- The structs of internal/model/model.go and the rows of the tables of internal/store/store.go.
use rosemary_virsree.Prelude.{ℕ, Bool, Option}
use rosemary_virsree.Prelude.Int.{ℤ}
use rosemary_virsree.Prelude.Text.{Str}

pub record Bucket : Type 0 where
  pub deleting : Bool
  pub id : Str
  pub name : Str
  pub slug : Str
  pub visibility : Str
  pub quota_bytes : ℤ
  pub quota_unlimited : Bool
  pub used_bytes : ℕ
  pub reserved_bytes : ℕ
  pub created_at : ℕ

pub record AccessKey : Type 0 where
  pub id : Str
  pub bucket_id : Str
  pub name : Str
  pub ak : Str
  pub secret_cipher : Str
  pub permissions : Str
  pub revoked : Bool
  pub created_at : ℕ

pub record Object : Type 0 where
  pub id : Str
  pub bucket_id : Str
  pub source_id : Str
  pub logical_key : Str
  pub physical_key : Str
  pub content_type : Str
  pub etag : Str
  pub status : Str
  pub size : ℕ
  pub generation : ℕ
  pub public : Bool
  pub created_at : ℕ
  pub updated_at : ℕ

pub record StorageSource : Type 0 where
  pub id : Str
  pub name : Str
  pub kind : Str
  pub priority : ℤ
  pub capacity_bytes : ℤ
  pub capacity_unlimited : Bool
  pub used_bytes : ℕ
  pub reserved_bytes : ℕ
  pub enabled : Bool
  pub direct : Bool
  pub cdn_enabled : Bool
  pub config_cipher : Str
  pub created_at : ℕ

pub record BootstrapToken : Type 0 where
  pub id : Str
  pub name : Str
  pub token_hash : Str
  pub max_quota : ℤ
  pub expires_at : ℕ
  pub used_at : Option ℕ

-- A row of `uploads`.
pub record Upload : Type 0 where
  pub id : Str
  pub bucket_id : Str
  pub source_id : Str
  pub logical_key : Str
  pub physical_key : Str
  pub size : ℕ
  pub content_type : Str
  pub reserved_bytes : ℕ
  pub source_reserved_bytes : ℕ
  pub transfer_hash : Str
  pub expires_at : ℕ
  pub created_at : ℕ

-- A row of `public_links`.
pub record PublicLink : Type 0 where
  pub id : Str
  pub object_id : Str
  pub slug : Str
  pub sign_ttl_seconds : ℤ
  pub expires_at : Option ℕ
  pub revoked : Bool
  pub created_at : ℕ

-- A row of `transfer_tokens`.
pub record TransferToken : Type 0 where
  pub token_hash : Str
  pub object_id : Str
  pub source_id : Str
  pub physical_key : Str
  pub size : ℕ
  pub content_type : Str
  pub etag : Str
  pub mode : Str
  pub expires_at : ℕ
  pub created_at : ℕ

-- A row of `bucket_deletions`, the struct of internal/store/bucket_delete.go.
pub record BucketDeletion : Type 0 where
  pub bucket_id : Str
  pub requested_at : ℕ
  pub cleanup_after : ℕ
  pub last_error_code : Str

-- A row of `bucket_delete_confirmations`.
pub record Confirmation : Type 0 where
  pub token_hash : Str
  pub bucket_id : Str
  pub ready_at : ℕ
  pub expires_at : ℕ

-- A row of `bucket_cleanup_tombstones`.
pub record Tombstone : Type 0 where
  pub bucket_id : Str
  pub until_at : ℕ
  pub next_at : ℕ

-- A row of `upload_grants`.
pub record UploadGrant : Type 0 where
  pub id : Str
  pub bucket_id : Str
  pub expires_at : ℕ
