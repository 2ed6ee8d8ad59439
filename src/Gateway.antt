-- ===== src/Gateway.antt =====
-- internal/s3compat: the S3 interface of the virtual buckets.
pub mod Request
pub mod Signature
pub mod Escape
pub mod Auth
pub mod Objects
