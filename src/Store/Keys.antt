-- ===== src/Store/Keys.antt =====
-- internal/store/store.go: access keys and bootstrap tokens.
use rosemary_virsree.Prelude.{ℕ, Bool, true, not, ◌&&◌, ◌||◌, none, some, ◌∷◌, ltb}
use rosemary_virsree.Prelude.Text.{Str, str_eq}
use rosemary_virsree.Prelude.Table.{find, any, update}
use rosemary_virsree.Prelude.Results.{
  Result, ok, ◌>>=◌, ◌>>◌, fail_if, scan, not_found, constraint, bucket_deleting, token_unusable,
}
use rosemary_virsree.Model.{Bucket, AccessKey, BootstrapToken, Db}
use rosemary_virsree.Store.Columns.{bucket_is, deletion_of}

-- INSERT … SELECT … WHERE the bucket exists and is not being deleted; no row written is
-- ErrBucketDeleting.
unfoldable pub create_access_key : AccessKey → Db → Result Db
create_access_key k db = do
  fail_if
      (not (any (bucket_is k.bucket_id) db.buckets)
        || any (deletion_of k.bucket_id) db.bucket_deletions)
      bucket_deleting
  fail_if (any (λ r. str_eq r.id k.id) db.access_keys || any (λ r. str_eq r.ak k.ak) db.access_keys)
      constraint
  ok (record db { access_keys = k ∷ db.access_keys })

-- The key and its bucket, unless the bucket is being deleted.
unfoldable pub access_by_ak : Str → Db → Result (AccessKey × Bucket)
access_by_ak ak db = do
  k ← scan (find (λ k. str_eq k.ak ak) db.access_keys) not_found
  b ← scan (find (bucket_is k.bucket_id) db.buckets) not_found
  fail_if (any (deletion_of b.id) db.bucket_deletions) not_found
  ok (k, b)

unfoldable pub revoke_key : Str → Db → Db
revoke_key id db = record db {
  access_keys = update (λ k. str_eq k.id id) (λ k. record k { revoked = true }) db.access_keys;
}

unfoldable pub create_bootstrap : BootstrapToken → Db → Result Db
create_bootstrap t db = do
  fail_if
      (any (λ r. str_eq r.id t.id) db.bootstrap_tokens
        || any (λ r. str_eq r.token_hash t.token_hash) db.bootstrap_tokens)
      constraint
  ok (record db { bootstrap_tokens = record t { used_at = none } ∷ db.bootstrap_tokens })

-- `used.Valid`
abbrev pub is_used : BootstrapToken → Bool
is_used t = elim t.used_at [ none ↦ Bool.false | some _ ↦ true ]

unfoldable pub inspect_bootstrap : ℕ → Str → Db → Result BootstrapToken
inspect_bootstrap now hash db = do
  t ← scan (find (λ t. str_eq t.token_hash hash) db.bootstrap_tokens) not_found
  fail_if (is_used t || ltb t.expires_at now) token_unusable
  ok t

-- UPDATE bootstrap_tokens SET used_at=? WHERE id=? AND used_at IS NULL
abbrev pub mark_used : ℕ → BootstrapToken → BootstrapToken
mark_used now t = record t { used_at = some now }

unfoldable pub claim_bootstrap : ℕ → Str → Db → Result (BootstrapToken × Db)
unfolding inspect_bootstrap
claim_bootstrap now hash db = do
  t ← inspect_bootstrap now hash db
  ok (
    mark_used now t,
    record db {
      bootstrap_tokens =
          update (λ r. str_eq r.id t.id && not (is_used r)) (mark_used now) db.bootstrap_tokens;
    },
  )
