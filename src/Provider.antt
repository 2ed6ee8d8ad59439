-- ===== src/Provider.antt =====
-- internal/provider: the S3 and WebDAV backends, over the clients of the two protocols.
pub mod Backend
pub mod Purge
pub mod Paths
pub mod WebDav
pub mod S3
