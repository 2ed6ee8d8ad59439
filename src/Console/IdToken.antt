-- ===== src/Console/IdToken.antt =====
-- internal/httpapi/oidc_token.go: verifyIDToken. base64, JSON, the HTTP client and the RSA signature
-- are parameters.
pub mod Accepts
use rosemary_virsree.Prelude.{
  ℕ, ◌+◌, ◌*◌, ◌^◌, Bool, true, false, not, ◌&&◌, ◌||◌, Option, none, some, List, [], ◌∷◌, ◌++◌,
  ltb, leb, ◌==◌, if◌then◌else◌,
}
use rosemary_virsree.Prelude.Int.{ℤ, pos, leb_ℤ}
use rosemary_virsree.Prelude.Text.{Str, codes, str_eq}
use rosemary_virsree.Prelude.Table.{any}
use rosemary_virsree.Prelude.Split.{split}
use rosemary_virsree.Prelude.Results.{
  Error, Result, ok, err, ◌>>=◌, ◌>>◌, fail_if, scan, bad_id_token, idp_unreachable, bad_metadata,
  bad_key_set, no_signing_key, signature_mismatch, bad_claims, claims_mismatch, token_time,
}
use rosemary_virsree.Service.Uploads.{length}
use rosemary_virsree.Console.Times.{unix, clock, add_minute, after}

pub record Header : Type 0 where
  pub algorithm : Str
  pub key_id : Str

pub record Metadata : Type 0 where
  pub issuer : Str
  pub jwks_uri : Str

-- One entry of the key set; `modulus` and `exponent` are base64 text.
pub record Jwk : Type 0 where
  pub key_type : Str
  pub key_id : Str
  pub algorithm : Str
  pub use_for : Str
  pub modulus : Str
  pub exponent : Str

pub data Audience : Type 0 where
  single : Str → Audience
  multiple : List Str → Audience
  unreadable : Audience

pub record Claims : Type 0 where
  pub issuer : Str
  pub subject : Str
  pub audience : Audience
  pub expires : ℤ
  pub issued_at : ℤ
  pub not_before : ℤ
  pub nonce : Str

-- An answer of the HTTP client: the status, and the body where it is JSON of the right shape.
pub data Fetched (A : Type 0) : Type 0 where
  unreachable : Fetched A
  answered : ℕ → Option A → Fetched A

pub record PublicKey : Type 0 where
  pub n : ℕ
  pub e : ℕ

-- The identity provider, as verifyIDToken reads it, and the libraries that it calls.
pub record Provider : Type 0 where
  pub decode : Str → Option Str
  pub header : Str → Option Header
  pub claims : Str → Option Claims
  pub metadata : Str → Fetched Metadata
  pub key_set : Str → Fetched (List Jwk)
  pub verifies : PublicKey → Str → Str → Bool

abbrev pub slash : ℕ
slash = 47

-- strings.TrimRight(s, "/")
unfoldable pub trim_slashes : Str → Str
trim_slashes [] = []
trim_slashes (c ∷ s) =
    let rest = trim_slashes s in if c == slash && str_eq rest [] then [] else c ∷ rest

-- Big-endian bytes
unfoldable pub number : ℕ → Str → ℕ
number n [] = n
number n (c ∷ s) = number (n * 256 + c) s

abbrev pub min_exponent : ℕ
min_exponent = 3

-- A modulus of at least 2,048 bits
abbrev pub min_modulus : ℕ
min_modulus = 2 ^ 2047

abbrev pub is_candidate : Str → Jwk → Bool
is_candidate kid k =
    str_eq k.key_id kid
    && (str_eq k.key_type (codes "RSA")
        && ((str_eq k.algorithm [] || str_eq k.algorithm (codes "RS256"))
            && (str_eq k.use_for [] || str_eq k.use_for (codes "sig"))))

abbrev pub strong : Option Str → Option Str → Option PublicKey
strong none e = none
strong (some n) none = none
strong (some n) (some e) =
    if str_eq n [] || (str_eq e [] || ltb 4 (length e))
    then none
    else (if ltb (number 0 e) min_exponent || ltb (number 0 n) min_modulus
        then none
        else some (record { n = number 0 n; e = number 0 e }))

abbrev pub or_else : Option PublicKey → Option PublicKey → Option PublicKey
or_else (some k) rest = some k
or_else none rest = rest

unfoldable pub audience_contains : Audience → Str → Bool
audience_contains (single a) client = str_eq a client
audience_contains (multiple all) client = any (λ a. str_eq a client) all
audience_contains unreadable client = false

abbrev pub is_zero : ℤ → Bool
is_zero z = leb_ℤ z (pos 0) && leb_ℤ (pos 0) z

-- The claims' times are out of order at `now`.
unfoldable pub bad_times : ℕ → Claims → Bool
bad_times now c =
    is_zero c.expires
    || (is_zero c.issued_at
        || (after (clock now) (add_minute (unix c.expires))
            || (after (unix c.issued_at) (add_minute (clock now))
                || (not (is_zero c.not_before)
                    && after (unix c.not_before) (add_minute (clock now))))))

abbrev pub three_parts : List Str → Option (Str × Str × Str)
three_parts (a ∷ b ∷ c ∷ []) = some (a, b, c)
three_parts _ = none

-- A body with a status below 300
abbrev pub fetched : {A : Type 0} → Fetched A → Error → Result A
fetched unreachable e = err idp_unreachable
fetched (answered status none) e = err e
fetched (answered status (some a)) e = if ltb status 300 then ok a else err e

abbrev pub decoded : {A : Type 0} → (Str → Option A) → Option Str → Option A
decoded f none = none
decoded f (some s) = f s

unfoldable pub check_claims : ℕ → Str → Str → Str → Claims → Result Str
unfolding trim_slashes audience_contains bad_times
check_claims now issuer client nonce c = do
  fail_if
      (not (str_eq (trim_slashes c.issuer) (trim_slashes issuer))
        || (str_eq c.subject []
            || (not (str_eq c.nonce nonce) || not (audience_contains c.audience client))))
      claims_mismatch
  fail_if (bad_times now c) token_time
  ok c.subject

module _ (idp : Provider) where
  unfoldable pub usable_key : Str → Jwk → Option PublicKey
  unfolding number
  usable_key kid k =
      if is_candidate kid k then strong (idp.decode k.modulus) (idp.decode k.exponent) else none

  -- The loop over the key set: its first usable key.
  unfoldable pub select_key : Str → List Jwk → Option PublicKey
  unfolding usable_key
  select_key kid [] = none
  select_key kid (k ∷ ks) = or_else (usable_key kid k) (select_key kid ks)

  -- The issuer's metadata, its key set, and the key that signed the token.
  unfoldable pub signing_key : Str → Str → Result PublicKey
  unfolding trim_slashes select_key
  signing_key issuer kid = do
    let wanted = trim_slashes issuer
    meta ← fetched (idp.metadata (wanted ++ codes "/.well-known/openid-configuration")) bad_metadata
    fail_if (not (str_eq (trim_slashes meta.issuer) wanted) || str_eq meta.jwks_uri []) bad_metadata
    keys ← fetched (idp.key_set meta.jwks_uri) bad_key_set
    scan (select_key kid keys) no_signing_key

  -- The subject of the token.
  unfoldable pub verify_id_token : ℕ → Str → Str → Str → Str → Result Str
  unfolding signing_key check_claims split
  verify_id_token now raw issuer client nonce = do
    parts ← scan (three_parts (split 46 raw)) bad_id_token
    header ← scan (decoded idp.header (idp.decode parts.0)) bad_id_token
    fail_if (not (str_eq header.algorithm (codes "RS256")) || str_eq header.key_id []) bad_id_token
    key ← signing_key issuer header.key_id
    signature ← scan (idp.decode parts.2) signature_mismatch
    fail_if (not (idp.verifies key (parts.0 ++ 46 ∷ parts.1) signature)) signature_mismatch
    c ← scan (decoded idp.claims (idp.decode parts.1)) bad_claims
    check_claims now issuer client nonce c
