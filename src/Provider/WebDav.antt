-- ===== src/Provider/WebDav.antt =====
-- internal/provider/webdav.go, and WebDAV.PurgePrefix of purge.go. The HTTP client and the server behind it
-- are a parameter, and so is the text of the endpoint's URL with another path.
pub mod Traces
pub mod Cleans
use rosemary_virsree.Prelude.{
  ℕ, Bool, true, false, not, ◌&&◌, ◌||◌, ◌==◌, ◌++◌, leb, if◌then◌else◌, Option, none, some, List,
  [], ◌∷◌,
}
use rosemary_virsree.Prelude.Int.{ℤ}
use rosemary_virsree.Prelude.Text.{Str, codes, str_eq}
use rosemary_virsree.Prelude.Split.{split}
use rosemary_virsree.Prelude.Decimal.{parse_int}
use rosemary_virsree.Prelude.Results.{
  Result, ok, err, remote_failed, backend_not_ready, probe_failed, bad_purge_prefix, no_presigning,
}
use rosemary_virsree.Prelude.Effects.{Effect, pure, fail, require, ignore, finally, ◌>>=◌, ◌>>◌}
use rosemary_virsree.Service.Storage.Endpoints.{Url, trim_slashes}
use rosemary_virsree.Provider.Purge.{slash, valid_purge_prefix}
use rosemary_virsree.Provider.Backend.{Head, Response, is_bad, is_probe}
use rosemary_virsree.Provider.Paths.{trim_left, trim_suffix, dir, join_path}

pub record Call : Type 0 where
  pub method : Str
  pub url : Str
  pub user : Option (Str × Str)
  pub body : Str
  pub headers : List (Str × Str)

pub record WebDav : Type 0 where
  pub endpoint_path : Str
  pub username : Str
  pub password : Str
  pub ready : Bool

abbrev pub is_web : Url → Bool
is_web u =
    (str_eq u.scheme (codes "http") || str_eq u.scheme (codes "https")) && not (str_eq u.host [])

abbrev pub opened : Str → Str → Option Url → WebDav
opened username password none = record {
  endpoint_path = [];
  username = username;
  password = password;
  ready = false;
}
opened username password (some u) = record {
  endpoint_path = u.path;
  username = username;
  password = password;
  ready = is_web u;
}

unfoldable pub new_web_dav : (Str → Option Url) → Str → Str → Str → WebDav
new_web_dav parse endpoint username password =
    opened username password (parse (trim_slashes endpoint))

-- The loop of objectURL.
unfoldable pub add_segments : Str → List Str → Str
unfolding trim_slashes
add_segments path [] = path
add_segments path (segment ∷ segments) =
    add_segments (trim_slashes path ++ slash ∷ segment) segments

abbrev pub responded : {W : Type 0} → Option Response × W → Result Response × W
responded (none, w) = (err remote_failed, w)
responded (some r, w) = (ok r, w)

abbrev pub credentials : WebDav → Option (Str × Str)
credentials d = if str_eq d.username [] then none else some (d.username, d.password)

abbrev pub head_of : Response → Head
head_of r = record {
  size = (parse_int (r.header (codes "Content-Length"))).0;
  etag = r.header (codes "ETag");
  content_type = r.header (codes "Content-Type");
}

-- The methods; the content length that a PUT declares is an argument.
module _ {W : Type 0} (http : Call → W → Option Response × W) (url_of : Str → Str)
    (d : WebDav) where
  unfoldable pub object_url : Str → Str
  unfolding add_segments split trim_left
  object_url key = url_of (add_segments d.endpoint_path (split slash (trim_left key)))

  unfoldable pub request : Str → Str → Str → List (Str × Str) → Effect W Response
  request method key body headers w = responded (
      http
        (record {
          method = method;
          url = object_url key;
          user = credentials d;
          body = body;
          headers = headers;
        })
        w)

  -- MKCOL; 405 says that the collection is there.
  unfoldable pub make_collection : Str → Effect W (Unit {0})
  make_collection path = do
    r ← request (codes "MKCOL") path [] []
    require (is_bad r && not (r.status == 405)) remote_failed

  -- The loop of ensureParents.
  unfoldable pub make_parents : Str → List Str → Effect W (Unit {0})
  unfolding make_collection join_path
  make_parents cur [] = pure tt
  make_parents cur (p ∷ ps) = elim (str_eq p []) [
    | Bool.true ↦ make_parents cur ps
    | Bool.false ↦ make_collection (join_path cur p) >> make_parents (join_path cur p) ps
  ]

  unfoldable pub ensure_parents : Str → Effect W (Unit {0})
  unfolding make_parents dir trim_left split
  ensure_parents key =
      let parent = dir (trim_left key) in
      if str_eq parent (codes ".") then pure tt else make_parents [] (split slash parent)

  unfoldable pub head : Str → Effect W Head
  unfolding request
  head key = do
    r ← request (codes "HEAD") key [] []
    require (is_bad r) remote_failed
    pure (head_of r)

  unfoldable pub delete : Str → Effect W (Unit {0})
  unfolding request
  delete key = do
    r ← request (codes "DELETE") key [] []
    require (is_bad r && not (r.status == 404)) remote_failed

  unfoldable pub copy : Str → Str → Effect W (Unit {0})
  unfolding ensure_parents request
  copy from to = do
    ensure_parents to
    r ←
        request (codes "COPY") from []
          ((codes "Destination", object_url to) ∷ (codes "Overwrite", codes "T") ∷ [])
    require (is_bad r) remote_failed

  unfoldable pub put : Str → Str → Str → Str → Effect W (Unit {0})
  unfolding ensure_parents request
  put key body size content_type = do
    ensure_parents key
    r ←
        request (codes "PUT") key body
          ((codes "Content-Type", content_type) ∷ (codes "Content-Length", size) ∷ [])
    require (is_bad r) remote_failed

  -- The body and its head.
  unfoldable pub get : Str → Effect W (Option Str × Head)
  unfolding request
  get key = do
    r ← request (codes "GET") key [] []
    require (is_bad r) remote_failed
    pure (r.body, head_of r)

  unfoldable pub purge_prefix : Str → Effect W (Unit {0})
  unfolding request trim_suffix
  purge_prefix prefix = do
    require (not (valid_purge_prefix prefix)) bad_purge_prefix
    r ← request (codes "DELETE") (trim_suffix prefix) [] []
    require (not (r.status == 200 || (r.status == 204 || r.status == 404))) remote_failed

  abbrev pub presign_put : Effect W Str
  presign_put = fail no_presigning

  abbrev pub presign_get : Effect W Str
  presign_get = fail no_presigning

  abbrev pub still_there : Result Head × W → Result (Unit {0}) × W
  still_there (ok h, w) = (err probe_failed, w)
  still_there (err e, w) = (ok tt, w)

  -- Probe, after its upload.
  unfoldable pub probe_steps : Str → Str → Effect W (Unit {0})
  unfolding head get copy delete
  probe_steps key copy_key = do
    head key
    r ← get key
    require (not (is_probe r.0)) probe_failed
    copy key copy_key
    head copy_key
    delete copy_key
    delete key
    λ w. still_there (head key w)

  -- Probe under the name that the clock gives it.
  unfoldable pub probe : Str → Effect W (Unit {0})
  unfolding put delete probe_steps
  probe key = do
    let copy_key = key ++ codes "-copy"
    require (not d.ready) backend_not_ready
    put key (codes "probe") (codes "5") (codes "text/plain")
    finally (do ignore (delete copy_key); ignore (delete key)) (probe_steps key copy_key)
