-- ===== src/Gateway/Request.antt =====
-- An HTTP request, and internal/s3compat/auth.go: parseProof. The escaped path and the query come from
-- package net/url, the headers by canonical name from package net/http.
use rosemary_virsree.Prelude.{
  ℕ, Bool, not, ◌&&◌, ◌||◌, Option, none, some, List, [], ◌∷◌, ◌++◌, if◌then◌else◌,
}
use rosemary_virsree.Prelude.Int.{ℤ, pos, ltb_ℤ, leb_ℤ}
use rosemary_virsree.Prelude.Text.{Str, codes, str_eq, has_prefix, trim_prefix}
use rosemary_virsree.Prelude.Table.{find}
use rosemary_virsree.Prelude.Split.{split, cut}
use rosemary_virsree.Prelude.Decimal.{parse_int}
use rosemary_virsree.Prelude.Results.{
  Result, ok, ◌>>=◌, ◌>>◌, fail_if, scan, bad_credential, bad_expires, unsigned_request,
}

-- url.Values and http.Header
abbrev pub Values : Type 0
Values = List (Str × List Str)

pub record Request : Type 0 where
  pub method : Str
  pub host : Str
  pub escaped_path : Str
  pub query : Values
  pub header : Values

abbrev pub values_of : Option (Str × List Str) → List Str
values_of none = []
values_of (some r) = r.1

unfoldable pub values : Values → Str → List Str
values vs name = values_of (find (λ r. str_eq r.0 name) vs)

abbrev pub first_of : List Str → Str
first_of [] = []
first_of (v ∷ vs) = v

-- Values.Get and Header.Get
unfoldable pub get : Values → Str → Str
unfolding values
get vs name = first_of (values vs name)

pub record Proof : Type 0 where
  pub access : Str
  pub scope : Str
  pub signed : Str
  pub signature : Str
  pub amz_date : Str
  pub payload : Str
  pub expires : ℤ
  pub presigned : Bool

abbrev pub slash : ℕ
slash = 47

abbrev pub comma : ℕ
comma = 44

abbrev pub algorithm : Str
algorithm = codes "AWS4-HMAC-SHA256"

abbrev pub unsigned_payload : Str
unsigned_payload = codes "UNSIGNED-PAYLOAD"

-- 7 days, in seconds
abbrev pub max_expires : ℤ
max_expires = pos 604800

-- A presigned request carries its proof in the query.
unfoldable pub presigned_proof : Values → Result Proof
unfolding get cut parse_int
presigned_proof q = do
  parts ← scan (cut slash (get q (codes "X-Amz-Credential"))) bad_credential
  let expires = parse_int (get q (codes "X-Amz-Expires"))
  fail_if (not expires.1 || (ltb_ℤ expires.0 (pos 1) || ltb_ℤ max_expires expires.0)) bad_expires
  ok (record {
    access = parts.0;
    scope = parts.1;
    signed = get q (codes "X-Amz-SignedHeaders");
    signature = get q (codes "X-Amz-Signature");
    amz_date = get q (codes "X-Amz-Date");
    payload = unsigned_payload;
    expires = expires.0;
    presigned = Bool.true;
  })

-- m[name] after the loop over the fields `name=value`: the last one with this name.
abbrev pub field_or : Str → Str → Option (Str × Str) → Str
field_or name old none = old
field_or name old (some r) = if str_eq r.0 name then r.1 else old

abbrev pub is_zero : ℤ → Bool
is_zero z = leb_ℤ z (pos 0) && leb_ℤ (pos 0) z

module _ (trim_space : Str → Str) where
  unfoldable pub field : Str → Str → List Str → Str
  unfolding cut
  field name old [] = old
  field name old (v ∷ vs) = field name (field_or name old (cut 61 (trim_space v))) vs

  abbrev pub chosen_expires : Request → ℤ
  chosen_expires r =
      let first = (parse_int (get r.query (codes "rvs-expires"))).0 in
      let second = (parse_int (get r.header (codes "X-Rvs-Expires-In"))).0 in
      if is_zero first then second else first

  -- The Authorization header.
  unfoldable pub header_proof : Request → Result Proof
  unfolding get cut field parse_int split
  header_proof r = do
    let h = get r.header (codes "Authorization")
    fail_if (not (has_prefix h (algorithm ++ 32 ∷ []))) unsigned_request
    let fields = split comma (trim_prefix h (algorithm ++ 32 ∷ []))
    parts ← scan (cut slash (field (codes "Credential") [] fields)) bad_credential
    ok (record {
      access = parts.0;
      scope = parts.1;
      signed = field (codes "SignedHeaders") [] fields;
      signature = field (codes "Signature") [] fields;
      amz_date = get r.header (codes "X-Amz-Date");
      payload = get r.header (codes "X-Amz-Content-Sha256");
      expires = chosen_expires r;
      presigned = Bool.false;
    })

  unfoldable pub parse_proof : Request → Result Proof
  unfolding presigned_proof header_proof get
  parse_proof r =
      if str_eq (get r.query (codes "X-Amz-Algorithm")) algorithm
      then presigned_proof r.query
      else header_proof r
