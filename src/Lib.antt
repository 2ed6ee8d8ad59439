-- ===== src/Lib.antt =====
-- VirSree, a metadata service for object storage: a SQLite database of buckets, objects and uploads
-- with quotas, in front of several S3 and WebDAV stores, with signed transfers, public links,
-- one-time bootstrap tokens and a bucket deletion that waits for the upload grants it has signed.
--
-- The parts, from the repository's root:
-- - Model and Model/Rows: internal/model/model.go and the schema of internal/store/store.go. Db is
--   the database, one list of rows for each table.
-- - Store/Upload: requireActiveBucket, ReserveObject, GetUpload. Store/Commit: CommitUpload,
--   CancelUpload, GetObject, DeleteObject. Store/Buckets: GetBucket, CreateBucket, UpdateBucket.
--   Store/Keys: CreateAccessKey, AccessByAK, RevokeKey, CreateBootstrap, InspectBootstrap,
--   ClaimBootstrap. Store/Links: CreatePublicLink, RevokePublicLink, PublicObject. All of
--   internal/store/store.go.
-- - Store/Sources: internal/store/platform.go (storage sources, transfer hashes, download tokens) and
--   internal/store/rotate.go.
-- - Store/Deletion: internal/store/bucket_delete.go (PrepareBucketDeletion, BeginBucketDeletion,
--   FinishBucketDeletion, the upload grants, the tombstones).
-- - Store/Steps: one constructor for each transaction, and histories of them. SQLite runs the
--   transactions of all requests one after the other, so a history is any interleaving of requests.
-- - Store/Accounts, Store/Quota, and the children of Store/Deletion and Store/Steps: the proofs.
-- - Store/Listings: ListBuckets, ListKeys, BucketMetrics, BucketAllocations, Overview,
--   ListObjectsPage and BrowseObjectsPage of internal/store/store.go.
-- - Service/World: what a request of internal/service works on: the database and the remote stores,
--   whose operations (internal/provider/backend.go) are the parameter Remote. Service/Uploads:
--   BeginUpload, cleanupExpiredUploads, CommitUpload. Service/Objects: DownloadURL, Delete, the public
--   links, the relays, RotateObjectKey. Service/Keys: NewBucket, UpdateBucket, NewKey, Authenticate,
--   CreateBootstrap, Claim. Service/Cleanup: internal/service/bucket_delete.go. Service/Backends: the
--   choice of a storage source in internal/service/storage.go; Service/Storage: the rest of that file,
--   the preparation of a source's settings (Endpoints: the normalisation of its addresses) and Load,
--   Add, Detail and Update with the runtimes in memory (Sources). Service/Backup: the worker of
--   internal/service/platformfs.go. Their children are the proofs.
-- - Store/Logins: the sign-in challenges and administrator sessions of internal/store/platform.go.
--   Console/IdToken: internal/httpapi/oidc_token.go, with the clock of Console/Times. Console/SignIn:
--   internal/httpapi/auth.go, whose database is Store/Logins.
-- - Provider: internal/provider. Provider/Purge: S3.PurgePrefix of purge.go, which the cleanup of a
--   bucket calls. Provider/WebDav: webdav.go and WebDAV.PurgePrefix, with the functions of package path
--   in Provider/Paths. Provider/S3: the links of s3.go; Provider/S3/Calls: its calls and its probe.
-- - Gateway/Request, Gateway/Signature, Gateway/Auth: internal/s3compat/auth.go. Gateway/Objects:
--   internal/s3compat/gateway.go.
-- - Config: internal/config/config.go. Secretbox: internal/secretbox/secretbox.go.
-- - Prelude: shared types, tests, text and lemmas. Results has the errors, Effects the state monad with
--   errors, Table and Sorting the queries, Split the functions of strings.
-- - Tests: a sample database and the theorems at it.
--
-- A transaction is a function from the time and the database to an error or a database; an error
-- rolls back. A SELECT of one row is `find`, and a query without a row is the error not_found
-- (sql.ErrNoRows). A constraint of the schema that an INSERT or UPDATE would violate is the error
-- constraint. Errors of the driver and cancelled contexts, which roll back too, are left out. A table
-- is a list of rows of which no operation reads the order, except where a query says ORDER BY.
--
-- Sizes, used and reserved bytes are natural numbers: the services refuse negative sizes, and the
-- SQL clamps differences at 0. Quotas, limits and capacities are integers, and Go's int64 sums wrap
-- (wrap64). SQL sums are exact: where SQLite's sum() would overflow an int64, the query fails
-- (sum_overflow), and a counter itself is taken to stay below 2^63. A time is a number of
-- nanoseconds, compared as an instant. Strings are lists of bytes. All loops are recursions on the
-- list that they run over, with two exceptions. The decimal digits of a number n are taken with fuel
-- n + 1, which is enough, since every step divides by 10. The loops over the pages of S3.PurgePrefix
-- run for as long as the API answers with more; they are functions of fuel, a run out of fuel is the
-- error out_of_fuel, and Provider/Purge/Ends says how much is enough.
--
-- A request chains transactions and calls of the stores, which keep their effects when a later step
-- fails. It reads one clock; random identifiers, tokens, their hashes and ciphers are arguments. The
-- lock of a bucket keeps its cleanup apart from its requests, and each request is modelled from the
-- state in which it holds the lock. The answers of the stores are unconstrained, but for what a theorem
-- names as its hypotheses. The order in which a
-- Go map is visited is that of the list Manager.sources, which is arbitrary. Equal keys of an ORDER BY
-- keep the order of the table.
--
-- Code outside the repository is a parameter: the S3 client of the purge (Client), the AWS SDK
-- and the HTTP clients of the backends (Sdk and `http`), the hashes, codecs and tests of the
-- gateway (Crypto and time.Parse), the identity provider and its codecs
-- (Console.IdToken.Provider), net/url and the secret box (Libraries, Tools), the files of the
-- backup worker (Files), the environment and the URL parser of the configuration.
--
-- Not modelled: the table `audits`, which nothing but a migration reads, and
-- access_keys.last_used_at; the migration of old databases; the routes and handlers of
-- internal/httpapi/server.go and the messages of internal/httpapi/errors.go; the commands; the web
-- console.
pub mod Prelude
pub mod Model
pub mod Store
pub mod Provider
pub mod Service
pub mod Gateway
pub mod Secretbox
pub mod Console
pub mod Config
pub mod Tests
