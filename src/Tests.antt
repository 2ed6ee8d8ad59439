-- ===== src/Tests.antt =====
-- Small runs of the model, and each theorem of the results at an input that meets its hypotheses.
mod Sample
mod Accounts
mod Quotas
mod Deletions
mod Tokens
mod Requests
mod Objects
mod Purging
mod Backends
mod Codec
mod Listing
mod SignIns
mod Signed
mod Settings
