-- ===== src/Store.antt =====
-- internal/store: every function is a transaction on the `Db`. An error rolls back, so only a
-- successful result holds a new database. `now` is the clock that the function reads.
pub mod Columns
pub mod Buckets
pub mod Upload
pub mod Commit
pub mod Keys
pub mod Sources
pub mod Links
pub mod Logins
pub mod Accounts
pub mod Steps
pub mod Quota
pub mod Listings
pub mod Deletion
