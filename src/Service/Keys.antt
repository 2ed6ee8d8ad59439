-- ===== src/Service/Keys.antt =====
-- internal/service/service.go: buckets, access keys and bootstrap tokens. The random identifiers, the
-- sealed secret and the hashes are arguments; `trim_space` and `to_lower` are strings.TrimSpace and
-- strings.ToLower, whose Unicode tables are not modelled.
pub mod Authenticate
pub mod Permissions
use rosemary_virsree.Prelude.{
  ℕ, suc, ◌+◌, ◌*◌, Bool, true, false, not, ◌&&◌, ◌||◌, none, List, [], ◌∷◌, ◌++◌, ltb, leb, ◌==◌,
  if◌then◌else◌,
}
use rosemary_virsree.Prelude.Int.{ℤ, pos, ltb_ℤ}
use rosemary_virsree.Prelude.Text.{Str, codes, str_eq}
use rosemary_virsree.Prelude.Split.{split, join}
use rosemary_virsree.Prelude.Table.{any}
use rosemary_virsree.Prelude.Results.{
  Error, Result, ok, err, not_found, bad_slug, bad_visibility, name_required, unknown_permission,
  invalid_credentials, revoked_credential, permission_denied, lifetime_too_short, quota_required,
  quota_exceeds_allowance, invalid_request, bucket_exists,
}
use rosemary_virsree.Model.{Bucket, AccessKey, BootstrapToken, Db}
use rosemary_virsree.Store.Buckets.{get_bucket, create_bucket, update_bucket}
use rosemary_virsree.Store.Keys.{
  create_access_key, access_by_ak, create_bootstrap, inspect_bootstrap, claim_bootstrap,
}
use rosemary_virsree.Store.Deletion.{minute}
use rosemary_virsree.Service.World.{
  Action, World, pure, fail, lift, query, transact, transact_with, require, ◌>>=◌, ◌>>◌,
}
use rosemary_virsree.Service.Uploads.{length}

abbrev pub comma : ℕ
comma = 44

abbrev pub is_permission : Str → Bool
is_permission p =
    str_eq p (codes "read")
    || (str_eq p (codes "write") || (str_eq p (codes "delete") || str_eq p (codes "manage")))

-- slugRx: ^[a-z0-9][a-z0-9-]{1,61}[a-z0-9]$
abbrev pub is_alphanumeric : ℕ → Bool
is_alphanumeric c = (leb 97 c && leb c 122) || (leb 48 c && leb c 57)

unfoldable pub slug_rest : Str → Bool
slug_rest [] = false
slug_rest (c ∷ []) = is_alphanumeric c
slug_rest (c ∷ d ∷ s) = (is_alphanumeric c || c == 45) && slug_rest (d ∷ s)

unfoldable pub valid_slug : Str → Bool
unfolding slug_rest
valid_slug [] = false
valid_slug (c ∷ s) = is_alphanumeric c && (leb 2 (length s) && (leb (length s) 62 && slug_rest s))

abbrev pub valid_visibility : Str → Bool
valid_visibility v = str_eq v (codes "private") || str_eq v (codes "public")

abbrev pub all_permissions : Str
all_permissions = codes "read,write,delete,manage"

module _ (trim_space to_lower : Str → Str) where
  unfoldable pub has : Str → Str → Bool
  unfolding split
  has csv v = any (λ p. str_eq (trim_space p) v) (split comma csv)

  -- The loop of NewKey: known permissions in the order of their first mention.
  unfoldable pub normalize : List Str → List Str → Result (List Str)
  normalize seen [] = ok seen
  normalize seen (p ∷ ps) =
      let next = trim_space p in
      let rest = normalize (if any (str_eq next) seen then seen else seen ++ next ∷ []) ps in
      if is_permission next then rest else err unknown_permission

  abbrev pub joined : Result (List Str) → Result Str
  joined (ok ps) = ok (join comma ps)
  joined (err e) = err e

  -- The permissions that NewKey stores.
  unfoldable pub normal_permissions : Str → Result Str
  unfolding normalize split join
  normal_permissions perms =
      joined (normalize [] (split comma (if str_eq perms [] then all_permissions else perms)))

  unfoldable pub new_key : {W : Type 0} → ℕ → Str → Str → Str → Str → Str → Str → Action W AccessKey
  unfolding normal_permissions
  new_key now bucket name perms id ak cipher = do
    ps ← lift (normal_permissions perms)
    let k : AccessKey = record {
      id = id;
      bucket_id = bucket;
      name = name;
      ak = ak;
      secret_cipher = cipher;
      permissions = ps;
      revoked = false;
      created_at = now;
    }
    transact (create_access_key k)
    pure k

  abbrev pub credential : Result (AccessKey × Bucket) → Result (AccessKey × Bucket)
  credential (ok r) = ok r
  credential (err e) = err invalid_credentials

  -- `unseal` is Box.Open. A wrong secret and a secret that cannot be opened look the same.
  unfoldable pub authenticate :
      {W : Type 0} → (Str → Result Str) → Str → Str → Str → Action W (AccessKey × Bucket)
  unfolding has
  authenticate unseal ak secret permission = do
    r ← query (λ db. credential (access_by_ak ak db))
    require r.0.revoked revoked_credential
    require
        (elim (unseal r.0.secret_cipher) [
          | ok plain ↦ not (str_eq plain secret)
          | err e ↦ Bool.true
        ])
        invalid_credentials
    require (not (has r.0.permissions permission)) permission_denied
    pure r

  unfoldable pub new_bucket :
      {W : Type 0} → ℕ → Str → Str → Str → Str → ℤ → Bool → ℤ → Bool → Action W Bucket
  new_bucket now id name slug visibility quota unlimited total platform = do
    let slug' = to_lower (trim_space slug)
    require (not (valid_slug slug')) bad_slug
    require (not (valid_visibility visibility)) bad_visibility
    let b : Bucket = record {
      deleting = false;
      id = id;
      name = trim_space name;
      slug = slug';
      visibility = visibility;
      quota_bytes = quota;
      quota_unlimited = unlimited;
      used_bytes = 0;
      reserved_bytes = 0;
      created_at = now;
    }
    transact (create_bucket b total platform)
    pure b

  unfoldable pub change_bucket :
      {W : Type 0} → Str → Str → Str → ℤ → Bool → ℤ → Bool → Action W Bucket
  change_bucket slug name visibility quota unlimited total platform = do
    let name' = trim_space name
    require (str_eq name' []) name_required
    require (not (valid_visibility visibility)) bad_visibility
    transact_with (update_bucket slug name' visibility quota unlimited total platform)

  -- `ttl` is the lifetime in nanoseconds.
  unfoldable pub new_bootstrap :
      {W : Type 0} → ℕ → Str → Str → Str → ℤ → ℕ → Action W BootstrapToken
  new_bootstrap now id hash name max_quota ttl = do
    require (ltb ttl minute) lifetime_too_short
    require (not (ltb_ℤ (pos 0) max_quota)) quota_required
    let t : BootstrapToken = record {
      id = id;
      name = name;
      token_hash = hash;
      max_quota = max_quota;
      expires_at = now + ttl;
      used_at = none;
    }
    transact (create_bootstrap t)
    pure t

  abbrev pub taken : Result Bucket → Result (Unit {0})
  taken (ok b) = err bucket_exists
  taken (err not_found) = ok tt
  taken (err e) = err e

  -- The last two steps of Claim: the bucket and its owner's key.
  unfoldable pub owned :
      {W : Type 0}
      → ℕ
      → Str
      → Str
      → Str
      → Str
      → ℤ
      → ℤ
      → Bool
      → Str
      → Str
      → Str
      → Action W (Bucket × AccessKey)
  owned now bucket_id name slug visibility quota total platform key_id ak cipher = do
    b ← new_bucket now bucket_id name slug visibility quota false total platform
    k ← new_key now b.id (codes "owner") all_permissions key_id ak cipher
    pure (b, k)

  -- The bucket and its owner's key, made with the token that hashes to `hash`.
  unfoldable pub claim :
      {W : Type 0}
      → ℕ
      → Str
      → Str
      → Str
      → Str
      → ℤ
      → ℤ
      → Bool
      → Str
      → Str
      → Str
      → Str
      → Action W (Bucket × AccessKey)
  claim now hash name slug visibility quota total platform bucket_id key_id ak cipher = do
    t ← query (inspect_bootstrap now hash)
    require (ltb_ℤ t.max_quota quota) quota_exceeds_allowance
    let slug' = to_lower (trim_space slug)
    require
        (not (ltb_ℤ (pos 0) quota) || (not (valid_slug slug') || not (valid_visibility visibility)))
        invalid_request
    query (λ db. taken (get_bucket slug' db))
    transact_with (claim_bootstrap now hash)
    owned now bucket_id name slug' visibility quota total platform key_id ak cipher
