-- ===== src/Service.antt =====
-- internal/service: requests, which chain transactions with calls of the remote stores.
pub mod World
pub mod Backends
pub mod Storage
pub mod Uploads
pub mod Objects
pub mod Keys
pub mod Cleanup
pub mod Backup
