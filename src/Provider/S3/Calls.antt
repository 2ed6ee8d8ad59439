-- ===== src/Provider/S3/Calls.antt =====
-- The calls of S3 on its bucket, and Probe. `path_escape` is that of net/url.
use rosemary_virsree.Prelude.{ℕ, ◌*◌, not, ◌++◌, Option, none, some, [], ◌∷◌}
use rosemary_virsree.Prelude.Int.{ℤ, pos}
use rosemary_virsree.Prelude.Text.{Str, codes}
use rosemary_virsree.Prelude.Results.{
  Result, ok, err, remote_failed, backend_not_ready, probe_failed,
}
use rosemary_virsree.Prelude.Effects.{Effect, pure, require, ignore, finally, ◌>>=◌, ◌>>◌}
use rosemary_virsree.Store.Deletion.{minute}
use rosemary_virsree.Service.Storage.Endpoints.{Libraries}
use rosemary_virsree.Provider.Purge.{slash, answered}
use rosemary_virsree.Provider.Backend.{Head, Response, is_bad, is_probe}
use rosemary_virsree.Provider.S3.{S3, Sdk, presign_put, presign_get}

abbrev pub found : {W A : Type 0} → Option A × W → Result A × W
found (none, w) = (err remote_failed, w)
found (some a, w) = (ok a, w)

abbrev pub lift : {W A : Type 0} → Result A → Effect W A
lift r w = (r, w)

-- The lifetime of the links of a probe.
abbrev pub two_minutes : ℤ
two_minutes = pos (2 * minute)

module _ {W : Type 0} (sdk : Sdk W) (lib : Libraries) (escaped_path md5 path_escape : Str → Str)
    (s : S3) (now : ℕ) where
  unfoldable pub head : Str → Effect W Head
  head key = do require (not s.ready) backend_not_ready; λ w. found (sdk.head_object s.bucket key w)

  unfoldable pub delete : Str → Effect W (Unit {0})
  delete key = do
    require (not s.ready) backend_not_ready
    λ w. answered (sdk.delete_object s.bucket key w)

  unfoldable pub copy : Str → Str → Effect W (Unit {0})
  copy from to = do
    require (not s.ready) backend_not_ready
    λ w. answered (sdk.copy_object s.bucket to (path_escape (s.bucket ++ slash ∷ from)) w)

  unfoldable pub put : Str → Str → ℤ → Str → Effect W (Unit {0})
  put key body size content_type = do
    require (not s.ready) backend_not_ready
    λ w. answered (sdk.put_object s.bucket key body size content_type w)

  unfoldable pub get : Str → Effect W (Option Str × Head)
  get key = do require (not s.ready) backend_not_ready; λ w. found (sdk.get_object s.bucket key w)

  abbrev pub fetch : Str → Str → Str → Str → Effect W Response
  fetch method url body content_type w = found (sdk.fetch method url body content_type w)

  -- cleanupUploadedProbe: the answer to the deletion is not looked at.
  unfoldable pub cleanup_uploaded_probe : Str → Effect W (Unit {0})
  cleanup_uploaded_probe key = elim (sdk.sign_delete s.bucket key two_minutes) [
    | Option.none ↦ pure tt
    | Option.some url ↦ ignore (fetch (codes "DELETE") url [] [])
  ]

  abbrev pub still_there : Result Head × W → Result (Unit {0}) × W
  still_there (ok h, w) = (err probe_failed, w)
  still_there (err e, w) = (ok tt, w)

  -- Probe, after its upload.
  unfoldable pub probe_steps : Str → Str → Effect W (Unit {0})
  unfolding head copy delete presign_get
  probe_steps key copy_key = do
    head key
    url ← lift (presign_get sdk lib escaped_path md5 s now key two_minutes [])
    r ← fetch (codes "GET") url [] []
    require (is_bad r) probe_failed
    require (not (is_probe r.body)) probe_failed
    copy key copy_key
    head copy_key
    delete copy_key
    delete key
    λ w. still_there (head key w)

  unfoldable pub upload_probe : Str → Effect W (Unit {0})
  unfolding presign_put
  upload_probe key = do
    url ←
        lift
          (presign_put sdk lib escaped_path md5 s now key (codes "text/plain") (pos 5) two_minutes)
    r ← fetch (codes "PUT") url (codes "probe") (codes "text/plain")
    require (is_bad r) probe_failed

  -- What Probe does at its end, once it has uploaded its file.
  unfoldable pub clean_up : Str → Str → Effect W (Unit {0})
  unfolding delete cleanup_uploaded_probe
  clean_up key copy_key = do
    ignore (delete copy_key)
    ignore (delete key)
    cleanup_uploaded_probe key

  -- Probe under the name that the clock gives it.
  unfoldable pub probe : Str → Effect W (Unit {0})
  unfolding upload_probe clean_up probe_steps
  probe key = do
    let copy_key = key ++ codes "-copy"
    require (not s.ready) backend_not_ready
    upload_probe key
    finally (clean_up key copy_key) (probe_steps key copy_key)
