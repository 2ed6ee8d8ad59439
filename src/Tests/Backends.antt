-- ===== src/Tests/Backends.antt =====
-- The backends on a toy server.
use rosemary_virsree.Prelude.{
  ◌<◌, ◌⊎◌, ℕ, true, false, ◌≡◌, refl, Option, none, some, [], ◌∷◌, ◌++◌, if◌then◌else◌, arith,
  subst, sym,
}
use rosemary_virsree.Prelude.Int.{pos}
use rosemary_virsree.Prelude.Text.{Str, codes, str_eq, has_prefix, str_eq_iff, str_eq_refl}
use rosemary_virsree.Prelude.Results.{ok}
use rosemary_virsree.Provider.Paths.{clean, dir}
use rosemary_virsree.Provider.Backend.{Response}
use rosemary_virsree.Provider.WebDav.{Call, WebDav, object_url, put, probe}
use rosemary_virsree.Provider.WebDav.Traces.{copied, destination, may_write, probe-outside}
use rosemary_virsree.Provider.WebDav.Cleans.{erase, Refuses, probe-cleans}
use rosemary_virsree.Service.Storage.Endpoints.{Url, Libraries}
use rosemary_virsree.Service.Uploads.{decimal}
use rosemary_virsree.Provider.S3.{S3, Sdk, presign_get}

cleaned_up : clean (codes "a//b/./../c/") ≡ codes "a/c"
unfolding clean
cleaned_up = refl

of_a_file : dir (codes "rosemary/b/f") ≡ codes "rosemary/b"
unfolding dir
of_a_file = refl

-- Files by their URLs.
abbrev Files : Type 0
Files = Str → Option Str

abbrev write : Str → Option Str → Files → Files
write url body files u = if str_eq u url then body else files u

abbrev response : ℕ → Option Str → Response
response status body = record { status = status; header = λ _. []; body = body }

abbrev looked_up : Option Str → Response
looked_up none = response 404 none
looked_up (some body) = response 200 (some body)

abbrev server : Call → Files → Option Response × Files
server c files =
    if str_eq c.method (codes "PUT")
    then (some (response 201 none), write c.url (some c.body) files)
    else (if str_eq c.method (codes "DELETE")
        then (some (response 204 none), write c.url none files)
        else (if str_eq c.method (codes "COPY")
            then (some (response 201 none), write (destination c.headers) (files c.url) files)
            else (if str_eq c.method (codes "MKCOL")
                then (some (response 405 none), files)
                else (some (looked_up (files c.url)), files))))

abbrev dav : WebDav
dav = record { endpoint_path = codes "/dav/"; username = []; password = []; ready = true }

abbrev key : Str
key = codes "probes/1"

abbrev other : Str
other = codes "/dav/other"

abbrev stored : Files
stored u = if str_eq u other then some (codes "x") else none

server-frame :
    (c : Call) (u : Str) (files : Files) → may_write c u ≡ false → (server c files).1 u ≡ files u
server-frame c u files h = ground (arith, h)

deletion :
    (c : Call) (files : Files)
    → c.method ≡ codes "DELETE"
    → (server c files).1 ≡ write c.url none files
deletion c files e =
    let no_put : str_eq c.method (codes "PUT") ≡ false =
      subst (λ m. str_eq m (codes "PUT") ≡ false) (sym e) (unfold str_eq in refl) in
    let deletes : str_eq c.method (codes "DELETE") ≡ true = (str_eq_iff _ _).1 e in
    rw (no_put, deletes)

server-removes :
    (c : Call) (files : Files) (a : Response)
    → c.method ≡ codes "DELETE"
    → (server c files).0 ≡ some a
    → (a.status < 300) ⊎ (a.status ≡ 404)
    → (server c files).1 c.url ≡ none
server-removes c files a e answer good = rw (deletion c files e, str_eq_refl c.url)

server-stays :
    (c : Call) (u : Str) (files : Files)
    → c.method ≡ codes "DELETE"
    → files u ≡ none
    → (server c files).1 u ≡ none
server-stays c u files e gone = rw (deletion c files e) (ground (arith, gone))

probe-outside_example : (probe server (λ p. p) dav key stored).1 other ≡ stored other
unfolding object_url has_prefix
probe-outside_example =
    probe-outside server (λ p. p) dav (λ files. files) server-frame other key stored
      (unfold str_eq in refl) (unfold str_eq in refl)

abbrev erased : Str → Call
erased = erase server (λ p. p) dav (λ files. files)

probe-cleans_example :
    (s : Files) × ((probe server (λ p. p) dav key stored).1
      ≡ (server (erased key) (server (erased (copied key)) s).1).1)
    × (((probe server (λ p. p) dav key stored).1 (object_url server (λ p. p) dav (copied key))
          ≡ none)
        ⊎ Refuses server (λ p. p) dav (λ files. files) (copied key) s)
    × (((probe server (λ p. p) dav key stored).1 (object_url server (λ p. p) dav key) ≡ none)
        ⊎ Refuses server (λ p. p) dav (λ files. files) key (server (erased (copied key)) s).1)
probe-cleans_example =
    probe-cleans server (λ p. p) dav (λ files. files) server-removes server-stays key stored
      (unfold put str_eq in refl) refl

-- A service that answers nothing, and a download CDN at one address.
abbrev silent : Sdk (Unit {0})
silent = record {
  sign_put = λ _ _ _ _ _. none;
  sign_get = λ _ _ _ _. none;
  sign_delete = λ _ _ _. none;
  head_object = λ _ _ w. (none, w);
  delete_object = λ _ _ w. (false, w);
  copy_object = λ _ _ _ w. (false, w);
  put_object = λ _ _ _ _ _ w. (false, w);
  get_object = λ _ _ w. (none, w);
  fetch = λ _ _ _ _ w. (none, w);
}

abbrev cdn : Url
cdn = record {
  scheme = codes "https";
  host = codes "cdn";
  path = [];
  has_user = false;
  raw_query = [];
  fragment = [];
}

abbrev one_address : Libraries
one_address = record {
  trim_space = λ s. s;
  to_lower = λ s. s;
  parse = λ _. some cdn;
  to_text = λ u. u.host ++ (u.path ++ 63 ∷ u.raw_query);
  hostname = λ u. u.host;
  port = λ _. [];
}

abbrev source : S3
source = record {
  bucket = codes "b";
  download_mode = codes "bitiful_token";
  download_endpoint = codes "cdn";
  download_auth_key = codes "k";
  ready = true;
}

abbrev link : Str
link = codes "cdn/a?_btf_tk=k/a61&_ts=61"

linked :
    presign_get silent one_address
      (λ p. p)
      (λ t. t)
      source
      1500000000
      (codes "a")
      (pos 60000000000)
      []
    ≡ ok link
unfolding presign_get decimal str_eq
linked = refl
