-- ===== src/Gateway/Objects.antt =====
-- internal/s3compat/gateway.go: ServeHTTP and the listing. `encode` and `decode` are the JSON and base64
-- text of a continuation token; the words of an error message are left out, and so is the XML around
-- a listing.
pub mod Tokens
use rosemary_virsree.Prelude.{
  ℕ, Bool, true, false, not, ◌&&◌, ◌||◌, Option, none, some, List, [], ◌∷◌, map, ltb, ◌==◌,
  if◌then◌else◌,
}
use rosemary_virsree.Prelude.Int.{ℤ, pos, ltb_ℤ, pos_part}
use rosemary_virsree.Prelude.Text.{Str, codes, str_eq}
use rosemary_virsree.Prelude.Table.{count}
use rosemary_virsree.Prelude.Decimal.{parse_int}
use rosemary_virsree.Prelude.Results.{Result, ok, err}
use rosemary_virsree.Model.{Bucket, Object, Db}
use rosemary_virsree.Store.Columns.{is_ready}
use rosemary_virsree.Store.Commit.{get_object}
use rosemary_virsree.Store.Listings.{list_objects_page}
use rosemary_virsree.Service.World.{Remote, World}
use rosemary_virsree.Service.Backends.{Manager}
use rosemary_virsree.Service.Objects.{download_url, delete}
use rosemary_virsree.Service.Uploads.{length}
use rosemary_virsree.Gateway.Request.{Request, Values, get}
use rosemary_virsree.Gateway.Signature.{Crypto}
use rosemary_virsree.Gateway.Auth.{Granted, authenticate}

-- The bucket, the prefix and the key after which the next page starts.
pub record Cursor : Type 0 where
  pub bucket : Str
  pub prefix : Str
  pub after : Str

pub record Content : Type 0 where
  pub key : Str
  pub last_modified : ℕ
  pub etag : Str
  pub size : ℕ

pub record Listing : Type 0 where
  pub name : Str
  pub prefix : Str
  pub key_count : ℕ
  pub max_keys : ℕ
  pub is_truncated : Bool
  pub continuation_token : Str
  pub next_token : Str
  pub contents : List Content

pub data Response : Type 0 where
  failure : ℕ → Str → Response
  listing : Listing → Response
  redirect : Str → Response
  found : Object → Response
  no_content : Response

abbrev pub content : Object → Content
content o = record {
  key = o.logical_key;
  last_modified = o.updated_at;
  etag = o.etag;
  size = o.size;
}

abbrev pub page_size : ℕ
page_size = 1000

abbrev pub capped : ℤ → ℕ
capped parsed = if ltb_ℤ parsed (pos page_size) then pos_part parsed else page_size

-- max-keys, where it is a number that is not negative
unfoldable pub max_keys : Values → Option ℕ
unfolding get parse_int
max_keys q =
    let raw = get q (codes "max-keys") in
    let parsed = parse_int raw in
    if str_eq raw []
    then some page_size
    else (if not parsed.1 || ltb_ℤ parsed.0 (pos 0) then none else some (capped parsed.0))

module _ (encode : Cursor → Str) (decode : Str → Option Cursor) where
  abbrev pub accepted : Str → Str → Option Cursor → Option Str
  accepted bucket prefix none = none
  accepted bucket prefix (some c) =
      if str_eq c.bucket bucket && (str_eq c.prefix prefix && not (str_eq c.after []))
      then some c.after
      else none

  -- The key after which the page starts, where the continuation token is good.
  unfoldable pub start_of : Values → Str → Str → Option Str
  unfolding get
  start_of q bucket prefix =
      let token = get q (codes "continuation-token") in
      if str_eq token []
      then some (get q (codes "start-after"))
      else (if ltb 8192 (length token) then none else accepted bucket prefix (decode token))

  abbrev pub page_of : Values → Bucket → Str → ℕ → Result (List Object × Str) → Response
  page_of q b prefix n (err e) = failure 500 (codes "InternalError")
  page_of q b prefix n (ok r) = listing (record {
    name = b.slug;
    prefix = prefix;
    key_count = count (λ _. true) r.0;
    max_keys = n;
    is_truncated = not (str_eq r.1 []);
    continuation_token = get q (codes "continuation-token");
    next_token =
        if str_eq r.1 []
        then []
        else encode (record { bucket = b.id; prefix = prefix; after = r.1 });
    contents = map content r.0;
  })

  unfoldable pub list : Values → Bucket → Db → Response
  unfolding get max_keys start_of
  list q b db =
      let prefix = get q (codes "prefix") in
      elim (max_keys q) [
        | none ↦ failure 400 (codes "InvalidArgument")
        | some n ↦ elim (start_of q b.id prefix) [
          | none ↦ failure 400 (codes "InvalidToken")
          | some after ↦
              if n == 0
              then page_of q b prefix 0 (ok ([], []))
              else page_of q b prefix n (list_objects_page b.id prefix after n db)
        ]
      ]

  abbrev pub forbidden : Response
  forbidden = failure 403 (codes "AccessDenied")

  abbrev pub not_allowed : Response
  not_allowed = failure 405 (codes "MethodNotAllowed")

  abbrev pub no_such_key : Response
  no_such_key = failure 404 (codes "NoSuchKey")

  abbrev pub required_permission : Str → Str
  required_permission method =
      if str_eq method (codes "DELETE") then codes "delete" else codes "read"

  abbrev pub redirected : {W : Type 0} → Result Str × World W → Response × World W
  redirected (ok url, w) = (redirect url, w)
  redirected (err e, w) = (no_such_key, w)

  abbrev pub deleted : {W : Type 0} → Result (Unit {0}) × World W → Response × World W
  deleted (ok u, w) = (no_content, w)
  deleted (err e, w) = (no_such_key, w)

  abbrev pub headed : Result Object → Response
  headed (err e) = no_such_key
  headed (ok o) = if is_ready o then found o else no_such_key

  module _ {W : Type 0} (remote : Remote W) (m : Manager) where
    -- The methods on one object, for an authenticated caller. `now` is in nanoseconds; `hash` and
    -- `relay` are the token's hash and the URL of a relayed download.
    unfoldable pub on_object : ℕ → Str → Str → Granted → Str → Str → World W → Response × World W
    on_object now method key g hash relay w =
        if str_eq method (codes "GET")
        then (if ltb_ℤ g.expires (pos 1)
            then (failure 400 (codes "InvalidRequest"), w)
            else redirected (download_url remote m now g.bucket.id key g.expires hash relay w))
        else (if str_eq method (codes "HEAD")
            then (headed (get_object g.bucket.id key w.db), w)
            else (if str_eq method (codes "DELETE")
                then deleted (delete remote m g.bucket.id key w)
                else (not_allowed, w)))

    module _ (lib : Crypto) (parse_time : Str → Option ℤ) (trim_space : Str → Str)
        (unseal : Str → Result Str) where
      abbrev pub answer :
          ℕ → Request → Str → Str → Str → World W → Result Granted → Response × World W
      answer now r key hash relay w (err e) = (forbidden, w)
      answer now r key hash relay w (ok g) =
          if str_eq key []
          then (
            if str_eq r.method (codes "GET") then list r.query g.bucket w.db else not_allowed,
            w,
          )
          else on_object now r.method key g hash relay w

      -- Gateway.ServeHTTP on the bucket and the key of the path.
      unfoldable pub serve : ℕ → Request → Str → Str → Str → Str → World W → Response × World W
      unfolding list on_object
      serve now r bucket key hash relay w = answer now r key hash relay w (
          authenticate lib parse_time trim_space unseal (pos now) r (required_permission r.method)
            bucket w.db)
