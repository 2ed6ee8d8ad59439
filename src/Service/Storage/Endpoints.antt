-- ===== src/Service/Storage/Endpoints.antt =====
-- internal/service/storage.go: normalizeEndpoint and normalizeS3ServiceEndpoint.
use rosemary_virsree.Prelude.{
  ℕ, zero, suc, Bool, not, ◌&&◌, ◌||◌, Option, none, some, [], ◌∷◌, ◌++◌, ◌==◌, if◌then◌else◌,
}
use rosemary_virsree.Prelude.Text.{Str, codes, str_eq, has_prefix, trim_prefix}
use rosemary_virsree.Prelude.Results.{Result, ok, err, endpoint_required, bad_endpoint}
use rosemary_virsree.Service.Uploads.{length}

-- net/url.URL; `has_user` says that it has a user part.
pub record Url : Type 0 where
  pub scheme : Str
  pub host : Str
  pub path : Str
  pub has_user : Bool
  pub raw_query : Str
  pub fragment : Str

-- What the code calls of packages strings and net/url.
pub record Libraries : Type 0 where
  pub trim_space : Str → Str
  pub to_lower : Str → Str
  pub parse : Str → Option Url
  pub to_text : Url → Str
  pub hostname : Url → Str
  pub port : Url → Str

-- strings.TrimRight(s, "/")
unfoldable pub trim_slashes : Str → Str
trim_slashes [] = []
trim_slashes (c ∷ s) =
    let rest = trim_slashes s in if c == 47 && str_eq rest [] then [] else c ∷ rest

-- strings.TrimLeft(s, ".")
unfoldable pub trim_dots : Str → Str
trim_dots [] = []
trim_dots (c ∷ s) = let rest = trim_dots s in if c == 46 then rest else c ∷ s

-- strings.Contains
unfoldable pub contains : Str → Str → Bool
contains [] part = has_prefix [] part
contains (c ∷ s) part = let rest = contains s part in has_prefix (c ∷ s) part || rest

-- s[n:]
unfoldable pub drop : ℕ → Str → Str
drop zero s = s
drop (suc n) [] = []
drop (suc n) (c ∷ s) = drop n s

abbrev pub https : Str
https = codes "https://"

abbrev pub http : Str
http = codes "http://"

-- The scheme that a value gets which has none, or a mistyped one.
unfoldable pub with_scheme : Str → Str
unfolding contains
with_scheme v =
    if has_prefix v (codes "https//")
    then https ++ trim_prefix v (codes "https//")
    else (if has_prefix v (codes "http//")
        then http ++ trim_prefix v (codes "http//")
        else (if has_prefix v (codes "https:/") && not (has_prefix v https)
            then https ++ trim_prefix v (codes "https:/")
            else (if has_prefix v (codes "http:/") && not (has_prefix v http)
                then http ++ trim_prefix v (codes "http:/")
                else (if has_prefix v (codes "//")
                    then codes "https:" ++ v
                    else (if contains v (codes "://") then v else https ++ v)))))

module _ (lib : Libraries) where
  abbrev pub cleaned : Url → Url
  cleaned u = record u {
    scheme = lib.to_lower u.scheme;
    host = trim_dots u.host;
    path = trim_slashes u.path;
  }

  abbrev pub is_service_url : Url → Bool
  is_service_url u =
      (str_eq u.scheme (codes "http") || str_eq u.scheme (codes "https"))
      && (not (str_eq u.host [])
          && (not u.has_user && (str_eq u.raw_query [] && str_eq u.fragment [])))

  abbrev pub service_text : Option Url → Result Str
  service_text none = err bad_endpoint
  service_text (some u) =
      if is_service_url u && not (str_eq (trim_dots u.host) [])
      then ok (lib.to_text (cleaned u))
      else err bad_endpoint

  unfoldable pub normalize_endpoint : Str → Bool → Result Str
  unfolding with_scheme trim_dots trim_slashes
  normalize_endpoint raw optional =
      let v = lib.trim_space raw in
      if str_eq v []
      then (if optional then ok [] else err endpoint_required)
      else service_text (lib.parse (with_scheme (trim_dots v)))

  abbrev pub with_port : Str → Str → Str
  with_port host port = if str_eq port [] then host else host ++ 58 ∷ port

  -- The host without the bucket's name, where an S3 service follows it.
  abbrev pub without_bucket : Str → Str → Option Url → Str
  without_bucket endpoint bucket none = endpoint
  without_bucket endpoint bucket (some u) =
      let host = lib.hostname u in
      let prefix = lib.to_lower bucket ++ 46 ∷ [] in
      let service = drop (length prefix) host in
      if has_prefix (lib.to_lower host) prefix && has_prefix (lib.to_lower service) (codes "s3.")
      then lib.to_text (record u { host = with_port service (lib.port u) })
      else endpoint

  unfoldable pub normalize_service_endpoint : Str → Str → Str
  unfolding drop
  normalize_service_endpoint endpoint bucket =
      if str_eq endpoint [] || str_eq bucket []
      then endpoint
      else without_bucket endpoint bucket (lib.parse endpoint)
