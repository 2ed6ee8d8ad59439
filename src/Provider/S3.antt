-- ===== src/Provider/S3.antt =====
-- internal/provider/s3.go. The AWS SDK, net/http, net/url's texts and MD5 are parameters. A time is in
-- nanoseconds.
pub mod Calls
pub mod Lifetimes
use rosemary_virsree.Prelude.{
  ℕ, ◌+◌, ◌*◌, ◌/◌, Bool, true, false, not, ◌||◌, ◌==◌, ◌++◌, if◌then◌else◌, Option, none, some,
  List, [], ◌∷◌,
}
use rosemary_virsree.Prelude.Int.{ℤ, pos, pos_part, ltb_ℤ}
use rosemary_virsree.Prelude.Text.{Str, codes, str_eq}
use rosemary_virsree.Prelude.Results.{
  Result, ok, err, ◌>>=◌, ◌>>◌, fail_if, scan, remote_failed, backend_not_ready, probe_failed,
  ttl_too_short, ttl_too_long, webdav_fields_required, bad_endpoint, cdn_key_required,
}
use rosemary_virsree.Store.Deletion.{second, minute}
use rosemary_virsree.Service.Uploads.{decimal}
use rosemary_virsree.Service.Storage.Endpoints.{Url, Libraries, trim_slashes}
use rosemary_virsree.Provider.Purge.{slash}
use rosemary_virsree.Provider.Paths.{trim_left}
use rosemary_virsree.Provider.Backend.{Head, Response, is_bad, is_probe}

pub record S3 : Type 0 where
  pub bucket : Str
  pub download_mode : Str
  pub download_endpoint : Str
  pub download_auth_key : Str
  pub ready : Bool

-- New, from the settings that it reads itself; a backend that is not ready is empty.
unfoldable pub new_s3 : Str → Str → Str → Str → Str → Str → S3
new_s3 bucket access_key secret_key mode endpoint auth_key =
    if str_eq bucket [] || (str_eq access_key [] || str_eq secret_key [])
    then record {
      bucket = [];
      download_mode = [];
      download_endpoint = [];
      download_auth_key = [];
      ready = false;
    }
    else record {
      bucket = bucket;
      download_mode = mode;
      download_endpoint = endpoint;
      download_auth_key = auth_key;
      ready = true;
    }

-- The calls on the S3 API and the links that its clients sign. The arguments of a signature are the
-- bucket, the key, and what each link is for; `fetch` is http.DefaultClient with a method, a URL, a
-- body and a content type.
pub record Sdk (W : Type 0) : Type 0 where
  pub sign_put : Str → Str → Str → ℤ → ℤ → Option Str
  pub sign_get : Str → Str → Str → ℤ → Option Str
  pub sign_delete : Str → Str → ℤ → Option Str
  pub head_object : Str → Str → W → Option Head × W
  pub delete_object : Str → Str → W → Bool × W
  pub copy_object : Str → Str → Str → W → Bool × W
  pub put_object : Str → Str → Str → ℤ → Str → W → Bool × W
  pub get_object : Str → Str → W → Option (Option Str × Head) × W
  pub fetch : Str → Str → Str → Str → W → Option Response × W

-- MaxSigV4TTL
abbrev pub max_sig_v4_ttl : ℤ
max_sig_v4_ttl = pos (7 * 24 * 60 * minute)

unfoldable pub valid_ttl : ℤ → Result (Unit {0})
valid_ttl ttl = do
  fail_if (ltb_ℤ ttl (pos second)) ttl_too_short
  fail_if (ltb_ℤ max_sig_v4_ttl ttl) ttl_too_long

-- strings.ReplaceAll(s, `"`, "")
unfoldable pub without_quotes : Str → Str
without_quotes [] = []
without_quotes (c ∷ s) = let rest = without_quotes s in if c == 34 then rest else c ∷ rest

abbrev pub disposition : Str → Str
unfolding without_quotes
disposition [] = []
disposition (c ∷ name) =
    codes "attachment; filename=" ++ 34 ∷ (without_quotes (c ∷ name) ++ 34 ∷ [])

abbrev pub is_complete : Url → Bool
is_complete u = not (str_eq u.scheme [] || str_eq u.host [])

abbrev pub cdn_url : Str → Url → Url
unfolding trim_slashes trim_left
cdn_url key u = record u {
  path = trim_slashes u.path ++ slash ∷ trim_left key;
  raw_query = [];
  fragment = [];
}

-- The seconds since 1970 at which a link ends.
unfoldable pub deadline : ℕ → ℤ → ℕ
deadline now ttl = (now + pos_part ttl) / second

-- The methods of a backend at a time. `md5` gives its sum in hexadecimal digits.
module _ {W : Type 0} (sdk : Sdk W) (lib : Libraries) (escaped_path md5 : Str → Str) (s : S3)
    (now : ℕ) where
  unfoldable pub presign_put : Str → Str → ℤ → ℤ → Result Str
  unfolding valid_ttl
  presign_put key content_type size ttl = do
    fail_if (not s.ready) backend_not_ready
    valid_ttl ttl
    scan (sdk.sign_put s.bucket key content_type size ttl) remote_failed

  -- The token of a link is the sum of the key, the path and the deadline.
  unfoldable pub signed_cdn_url : Str → ℕ → Url → Url
  unfolding trim_slashes trim_left
  signed_cdn_url key until u =
      let v = cdn_url key u in
      let token = md5 (s.download_auth_key ++ (escaped_path v.path ++ decimal until)) in
      record v { raw_query = codes "_btf_tk=" ++ (token ++ (codes "&_ts=" ++ decimal until)) }

  unfoldable pub presign_bitiful : Str → ℤ → Result Str
  unfolding deadline signed_cdn_url
  presign_bitiful key ttl = do
    fail_if (str_eq s.download_endpoint [] || str_eq s.download_auth_key []) cdn_key_required
    u ← scan (lib.parse s.download_endpoint) bad_endpoint
    fail_if (not (is_complete u)) bad_endpoint
    ok (lib.to_text (signed_cdn_url key (deadline now ttl) u))

  unfoldable pub presign_get : Str → ℤ → Str → Result Str
  unfolding presign_bitiful valid_ttl without_quotes
  presign_get key ttl name = do
    fail_if (not s.ready) backend_not_ready
    if str_eq s.download_mode (codes "bitiful_token")
        then fail_if (ltb_ℤ ttl (pos second)) ttl_too_short >> presign_bitiful key ttl
        else (valid_ttl ttl
            >> scan (sdk.sign_get s.bucket key (disposition name) ttl) remote_failed)
