-- ===== src/Tests/Signed.antt =====
-- A signed request of the gateway, with a toy MAC.
use rosemary_virsree.Prelude.{◌≡◌, refl, some, Option, [], ◌∷◌, false}
use rosemary_virsree.Prelude.Int.{ℤ, pos}
use rosemary_virsree.Prelude.Text.{Str, codes, str_lt}
use rosemary_virsree.Prelude.Results.{Result, ok}
use rosemary_virsree.Model.{AccessKey, Db}
use rosemary_virsree.Store.Keys.{access_by_ak}
use rosemary_virsree.Gateway.Request.{Request}
use rosemary_virsree.Gateway.Signature.{Crypto}
use rosemary_virsree.Gateway.Auth.{Granted, authenticate}
use rosemary_virsree.Gateway.Auth.Accepts.{Accepted, authenticate_accepts}
use rosemary_virsree.Tests.Sample.{bkt, reserved, sample, tables}

abbrev key : AccessKey
key = record {
  id = codes "key_1";
  bucket_id = bkt;
  name = [];
  ak = codes "RVS1";
  secret_cipher = codes "cipher";
  permissions = codes "read,write";
  revoked = false;
  created_at = 5;
}

abbrev with_key : Db
with_key = record sample { access_keys = key ∷ [] }

-- The MAC is the key, and nothing is hashed.
abbrev toy : Crypto
toy = record {
  sha256 = λ s. s;
  mac = λ k v. k;
  hex = λ s. s;
  fields = λ s. s ∷ [];
  canonical_key = λ s. s;
}

abbrev request : Request
request = record {
  method = codes "GET";
  host = codes "h";
  escaped_path = codes "/s3/b";
  query = [];
  header =
      (
        codes "Authorization",
        codes
              "AWS4-HMAC-SHA256 Credential=RVS1/d/r/s3/aws4_request,SignedHeaders=host,Signature=AWS4pw"
            ∷ [],
      )
      ∷ (codes "X-Amz-Date", codes "t" ∷ [])
      ∷ [];
}

abbrev minute_ten : ℤ
minute_ten = pos 600000000000

abbrev parse_time : Str → Option ℤ
parse_time _ = some (pos 0)

abbrev unseal : Str → Result Str
unseal _ = ok (codes "pw")

abbrev granted : Granted
granted = record { secret_key = codes "pw"; bucket = reserved; key = key; expires = pos 0 }

let_in :
    authenticate toy parse_time
      (λ s. s)
      unseal
      minute_ten
      request
      (codes "read")
      reserved.slug
      with_key
    ≡ ok granted
unfolding tables authenticate access_by_ak str_lt
let_in = refl

authenticate_accepts_example :
    Accepted toy parse_time
      (λ s. s)
      unseal
      minute_ten
      request
      (codes "read")
      reserved.slug
      with_key
      granted
authenticate_accepts_example =
    authenticate_accepts toy parse_time (λ s. s) unseal minute_ten request (codes "read")
      reserved.slug with_key granted let_in
