-- ===== src/Gateway/Signature.antt =====
-- internal/s3compat/auth.go: the canonical request and its signature. SHA-256, HMAC, hexadecimal text,
-- strings.Fields and http.CanonicalHeaderKey are parameters.
use rosemary_virsree.Prelude.{
  ℕ, ◌+◌, ◌/◌, ◌%◌, Bool, ◌&&◌, ◌||◌, Option, none, some, List, [], ◌∷◌, ◌++◌, map, ltb, leb, ◌==◌,
  if◌then◌else◌,
}
use rosemary_virsree.Prelude.Text.{Str, codes, str_eq, str_lt}
use rosemary_virsree.Prelude.Table.{find, any, remove}
use rosemary_virsree.Prelude.Split.{split}
use rosemary_virsree.Prelude.Sorting.{sort}
use rosemary_virsree.Gateway.Request.{
  Request, Values, Proof, values, unsigned_payload, slash, algorithm,
}

abbrev pub semicolon : ℕ
semicolon = 59

abbrev pub newline : ℕ
newline = 10

-- strings.Join with any separator
unfoldable pub join_with : Str → List Str → Str
join_with sep [] = []
join_with sep (w ∷ []) = w
join_with sep (w ∷ v ∷ ws) = w ++ (sep ++ join_with sep (v ∷ ws))

-- The bytes that url.QueryEscape leaves as they are.
abbrev pub is_unreserved : ℕ → Bool
is_unreserved c =
    (leb 97 c && leb c 122)
    || ((leb 65 c && leb c 90)
        || ((leb 48 c && leb c 57) || (c == 45 || (c == 95 || (c == 46 || c == 126)))))

abbrev pub hex_digit : ℕ → ℕ
hex_digit n = if ltb n 10 then 48 + n else 55 + n

-- url.QueryEscape and its spaces as %20
unfoldable pub aws_escape : Str → Str
aws_escape [] = []
aws_escape (c ∷ s) =
    let rest = aws_escape s in
    if is_unreserved c then c ∷ rest else 37 ∷ hex_digit (c / 16) ∷ hex_digit (c % 16) ∷ rest

unfoldable pub canonical_uri : Request → Str
canonical_uri r = if str_eq r.escaped_path [] then slash ∷ [] else r.escaped_path

-- The parameters of one name, in the order of their values.
abbrev pub escaped_pairs : Str × List Str → List Str
escaped_pairs r = map (λ v. aws_escape r.0 ++ 61 ∷ aws_escape v) (sort str_lt r.1)

abbrev pub concat : List (List Str) → List Str
concat [] = []
concat (xs ∷ xss) = xs ++ concat xss

unfoldable pub canonical_query : Values → Bool → Str
unfolding aws_escape join_with
canonical_query query drop_signature =
    let kept =
      if drop_signature then remove (λ r. str_eq r.0 (codes "X-Amz-Signature")) query else query in
    join_with (codes "&") (concat (map escaped_pairs (sort (λ r t. str_lt r.0 t.0) kept)))

unfoldable pub signed_header : Str → Str → Bool
unfolding split
signed_header signed want = any (λ name. str_eq name want) (split semicolon signed)

unfoldable pub payload : Str → Str
payload v = if str_eq v [] then unsigned_payload else v

-- What the gateway calls of packages crypto, strings and net/http.
pub record Crypto : Type 0 where
  pub sha256 : Str → Str
  pub mac : Str → Str → Str
  pub hex : Str → Str
  pub fields : Str → List Str
  pub canonical_key : Str → Str

module _ (lib : Crypto) where
  abbrev pub header_value : Request → Option (Str × Str) → Str → Str
  header_value r (some override) name = override.1
  header_value r none name =
      if str_eq name (codes "host")
      then r.host
      else join_with (codes ",") (values r.header (lib.canonical_key name))

  abbrev pub header_line : Request → List (Str × Str) → Str → Str
  header_line r overrides name =
      let v = header_value r (find (λ o. str_eq o.0 name) overrides) name in
      name ++ 58 ∷ (join_with (codes " ") (lib.fields v) ++ newline ∷ [])

  unfoldable pub canonical_headers : Request → Str → List (Str × Str) → Str
  unfolding join_with values split
  canonical_headers r signed overrides =
      join_with [] (map (header_line r overrides) (split semicolon signed))

  unfoldable pub canonical_request : Request → Proof → List (Str × Str) → Str
  unfolding canonical_uri canonical_query canonical_headers payload join_with
  canonical_request r p overrides = join_with (newline ∷ []) (
      r.method
      ∷ canonical_uri r
      ∷ canonical_query r.query p.presigned
      ∷ canonical_headers r p.signed overrides
      ∷ p.signed
      ∷ payload p.payload
      ∷ [])

  abbrev pub string_to_sign : Proof → Str → Str
  string_to_sign p canonical =
      join_with (newline ∷ [])
        (algorithm ∷ p.amz_date ∷ p.scope ∷ lib.hex (lib.sha256 canonical) ∷ [])

  -- The key of the day, the region and the service. `sc` is the scope's list of parts, and the loop takes
  -- the four that the code names by their index.
  unfoldable pub signing_key : Str → List Str → Str
  signing_key key [] = key
  signing_key key (part ∷ parts) = signing_key (lib.mac key part) parts

  unfoldable pub expected_signature : Request → Proof → Str → List (Str × Str) → Str
  unfolding canonical_request signing_key split join_with
  expected_signature r p secret overrides =
      let key = signing_key (codes "AWS4" ++ secret) (split slash p.scope) in
      lib.hex (lib.mac key (string_to_sign p (canonical_request r p overrides)))

  unfoldable pub verify_signature : Request → Proof → Str → List (Str × Str) → Bool
  unfolding expected_signature
  verify_signature r p secret overrides =
      str_eq (expected_signature r p secret overrides) p.signature
