-- ===== src/Service/Objects.antt =====
-- internal/service/service.go and rotate.go: downloads, deletion, public links, relays, RotateObjectKey.
pub mod Failures
use rosemary_virsree.Prelude.{ℕ, Bool, not, ◌||◌, Option, none, some, ltb, if◌then◌else◌}
use rosemary_virsree.Prelude.Int.{ℤ, pos, ltb_ℤ}
use rosemary_virsree.Prelude.Text.{Str, codes, str_eq}
use rosemary_virsree.Prelude.Results.{
  Result, ok, err, expiry_required, not_ready, not_public, negative_expiry, capability_unavailable,
}
use rosemary_virsree.Model.{Bucket, Object}
use rosemary_virsree.Store.Columns.{is_ready}
use rosemary_virsree.Store.Upload.{require_active_bucket}
use rosemary_virsree.Store.Commit.{get_object, delete_object}
use rosemary_virsree.Store.Sources.{
  create_download_token, rotate_physical_key, upload_by_transfer_hash, download_by_transfer_hash,
}
use rosemary_virsree.Store.Links.{public, create_public_link, revoke_public_link, public_object}
use rosemary_virsree.Service.World.{
  Remote, Action, pure, fail, lift, query, transact, effect, ignore, or_undo, require, ◌>>=◌, ◌>>◌,
}
use rosemary_virsree.Service.Backends.{Manager, backend}
use rosemary_virsree.Service.Uploads.{physical, after_seconds, signed}

module _ {W : Type 0} (remote : Remote W) (m : Manager) where
  -- The URL of an object: presigned, or the relay's with a download token that hashes to `hash`.
  unfoldable pub sign_object : ℕ → Object → ℤ → Str → Str → Action W Str
  sign_object now o expires hash relay = do
    b ← lift (backend m o.source_id)
    if str_eq (remote.kind b) (codes "s3")
        then (λ w. signed (remote.presign b o.physical_key w.remote) w)
        else (transact (create_download_token now hash o.id (after_seconds now expires))
            >> pure relay)

  unfoldable pub download_url : ℕ → Str → Str → ℤ → Str → Str → Action W Str
  unfolding sign_object
  download_url now bucket key expires hash relay = do
    query (require_active_bucket bucket)
    require (ltb_ℤ expires (pos 1)) expiry_required
    o ← query (get_object bucket key)
    require (not (is_ready o)) not_ready
    sign_object now o expires hash relay

  unfoldable pub delete : Str → Str → Action W (Unit {0})
  delete bucket key = do
    query (require_active_bucket bucket)
    o ← query (get_object bucket key)
    b ← lift (backend m o.source_id)
    effect (remote.delete b o.physical_key)
    transact (delete_object o.id)

  abbrev pub link_expiry : ℕ → ℤ → Option ℕ
  link_expiry now ttl = if ltb_ℤ (pos 0) ttl then some (after_seconds now ttl) else none

  -- The direct URL of the new link's object; `id` and `slug` are random.
  unfoldable pub new_public_link : ℕ → Bucket → Str → ℤ → ℤ → Str → Str → Str → Str → Action W Str
  unfolding sign_object
  new_public_link now bucket key sign_ttl link_ttl hash relay id slug = do
    query (require_active_bucket bucket.id)
    require (not (str_eq bucket.visibility public)) not_public
    require (ltb_ℤ sign_ttl (pos 1)) expiry_required
    require (ltb_ℤ link_ttl (pos 0)) negative_expiry
    o ← query (get_object bucket.id key)
    require (not (is_ready o)) not_ready
    url ← sign_object now o sign_ttl hash relay
    transact (create_public_link now id o.id slug sign_ttl (link_expiry now link_ttl))
    pure url

  unfoldable pub revoke_link : Str → Str → Action W (Unit {0})
  revoke_link bucket slug = transact (revoke_public_link bucket slug)

  unfoldable pub resolve_public : ℕ → Str → Str → Str → Action W Str
  unfolding sign_object
  resolve_public now slug hash relay = do
    r ← query (public_object now slug)
    query (require_active_bucket r.0.bucket_id)
    sign_object now r.0 r.1 hash relay

  abbrev pub put_to : (Str → Str → W → Bool × W) → ℕ → ℤ → Result (Object × ℕ) → Action W (Unit {0})
  put_to put now length (err e) = fail capability_unavailable
  put_to put now length (ok r) = do
    require (ltb r.1 now || (ltb_ℤ length (pos r.0.size) || ltb_ℤ (pos r.0.size) length))
        capability_unavailable
    b ← lift (backend m r.0.source_id)
    effect (put b r.0.physical_key)

  -- The relayed PUT of `length` bytes; `put` is the backend's Put at a source and a key.
  unfoldable pub relay_upload : (Str → Str → W → Bool × W) → ℕ → Str → ℤ → Action W (Unit {0})
  relay_upload put now hash length = do
    first ← query (upload_by_transfer_hash hash)
    query (require_active_bucket first.0.bucket_id)
    r ← query (λ db. ok (upload_by_transfer_hash hash db))
    put_to put now length r

  abbrev pub read_from : ℕ → Result (Object × ℕ) → Action W (Str × Str)
  read_from now (err e) = fail capability_unavailable
  read_from now (ok r) = do
    require (ltb r.1 now) capability_unavailable
    b ← lift (backend m r.0.source_id)
    pure (b, r.0.physical_key)

  -- The backend and the key from which a relayed download reads.
  unfoldable pub relay_download : ℕ → Str → Action W (Str × Str)
  relay_download now hash = do
    r ← query (λ db. ok (download_by_transfer_hash hash db))
    read_from now r

  -- Where the metadata cannot be switched, the file is copied back.
  unfoldable pub rotate_object_key : ℕ → Str → Str → Action W (Unit {0})
  rotate_object_key now bucket key = do
    query (require_active_bucket bucket)
    o ← query (get_object bucket key)
    let next = physical bucket key now
    b ← lift (backend m o.source_id)
    effect (remote.copy b o.physical_key next)
    effect (remote.delete b o.physical_key)
    or_undo (transact (rotate_physical_key now o.id next now)) (
        ignore (effect (remote.copy b next o.physical_key))
        >> ignore (effect (remote.delete b next)))
