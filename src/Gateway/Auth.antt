-- ===== src/Gateway/Auth.antt =====
-- internal/s3compat/auth.go: verifyRequest and Gateway.authenticate. Times are nanoseconds since 1970;
-- `parse_time` is time.Parse with the layout 20060102T150405Z.
pub mod Window
pub mod Accepts
use rosemary_virsree.Prelude.{
  ℕ, ◌+◌, ◌-◌, ◌*◌, Bool, true, false, not, ◌&&◌, ◌||◌, Option, none, some, List, [], ◌∷◌,
  if◌then◌else◌,
}
use rosemary_virsree.Prelude.Int.{ℤ, pos, negsuc, ltb_ℤ, ◌+ℤ◌, wrap64}
use rosemary_virsree.Prelude.Text.{Str, codes, str_eq}
use rosemary_virsree.Prelude.Table.{any}
use rosemary_virsree.Prelude.Split.{split}
use rosemary_virsree.Prelude.Results.{
  Result, ok, err, ◌>>=◌, ◌>>◌, fail_if, scan, incomplete_signature, bad_amz_date, request_expired,
  request_skewed, bad_scope, signature_mismatch, invalid_access_key, bucket_not_granted,
  permission_denied,
}
use rosemary_virsree.Model.{Bucket, AccessKey, Db}
use rosemary_virsree.Store.Keys.{access_by_ak}
use rosemary_virsree.Store.Deletion.{second, minute}
use rosemary_virsree.Gateway.Request.{Request, Proof, get, parse_proof, slash, comma}
use rosemary_virsree.Gateway.Signature.{Crypto, signed_header, verify_signature}

unfoldable pub permission_ok : Str → Str → Bool
unfolding split
permission_ok csv want = any (λ p. str_eq p want) (split comma csv)

abbrev pub skew : ℤ
skew = pos (15 * minute)

-- time.Duration(n) * time.Second
abbrev pub seconds : ℤ → ℤ
seconds (pos n) = wrap64 (pos (n * second))
seconds (negsuc n) = wrap64 (negsuc (n * second + (second - 1)))

-- The time of a request: not past its expiry where it is presigned, else within 15 minutes of now.
unfoldable pub check_time : ℤ → Proof → ℤ → Result (Unit {0})
check_time now p t =
    if p.presigned
    then fail_if (ltb_ℤ (t +ℤ seconds p.expires) now) request_expired
    else fail_if (ltb_ℤ (t +ℤ skew) now || ltb_ℤ (now +ℤ skew) t) request_skewed

abbrev pub valid_scope : List Str → Bool
valid_scope (day ∷ region ∷ service ∷ terminator ∷ []) =
    str_eq service (codes "s3") && str_eq terminator (codes "aws4_request")
valid_scope _ = false

abbrev pub identity : List (Str × Str)
identity = (codes "accept-encoding", codes "identity") ∷ []

-- service.Credential, and the seconds that the request asks for.
pub record Granted : Type 0 where
  pub secret_key : Str
  pub bucket : Bucket
  pub key : AccessKey
  pub expires : ℤ

module _ (lib : Crypto) (parse_time : Str → Option ℤ) where
  -- The signature of the request as it came or, where a signed Accept-Encoding header was stripped on
  -- the way, of the request with its usual value.
  unfoldable pub signature_good : Request → Proof → Str → Bool
  unfolding verify_signature signed_header get
  signature_good r p secret =
      verify_signature lib r p secret []
      || (not p.presigned
          && (signed_header p.signed (codes "accept-encoding")
              && (str_eq (get r.header (codes "Accept-Encoding")) []
                  && verify_signature lib r p secret identity)))

  unfoldable pub verify_request : ℤ → Request → Proof → Str → Result (Unit {0})
  unfolding check_time signature_good split
  verify_request now r p secret = do
    fail_if (str_eq p.signature [] || (str_eq p.scope [] || str_eq p.amz_date []))
        incomplete_signature
    t ← scan (parse_time p.amz_date) bad_amz_date
    check_time now p t
    fail_if (not (valid_scope (split slash p.scope))) bad_scope
    fail_if (not (signature_good r p secret)) signature_mismatch

  abbrev pub known_key : Result (AccessKey × Bucket) → Result (AccessKey × Bucket)
  known_key (err e) = err invalid_access_key
  known_key (ok r) = if r.0.revoked then err invalid_access_key else ok r

  module _ (trim_space : Str → Str) (unseal : Str → Result Str) where
    unfoldable pub authenticate : ℤ → Request → Str → Str → Db → Result Granted
    unfolding verify_request permission_ok parse_proof
    authenticate now r permission bucket db = do
      p ← parse_proof trim_space r
      found ← known_key (access_by_ak p.access db)
      secret ← unseal found.0.secret_cipher
      fail_if (not (str_eq found.1.slug bucket)) bucket_not_granted
      fail_if (not (permission_ok found.0.permissions permission)) permission_denied
      verify_request now r p secret
      ok (record { secret_key = secret; bucket = found.1; key = found.0; expires = p.expires })
