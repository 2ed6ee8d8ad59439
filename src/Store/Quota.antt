-- ===== src/Store/Quota.antt =====
-- The quota of a bucket under ReserveObject and CommitUpload, and the total quota under
-- CreateBucket and UpdateBucket.
pub mod Reserve
pub mod Commit
pub mod Total
pub mod Cancel
