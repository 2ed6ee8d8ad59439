-- ===== src/Service/Uploads.antt =====
-- internal/service/service.go: BeginUpload, cleanupExpiredUploads and CommitUpload.
pub mod Commits
pub mod Reserving
pub mod Namespaces
use rosemary_virsree.Prelude.{
  ℕ, zero, suc, ◌+◌, ◌*◌, ◌/◌, ◌%◌, Bool, true, false, not, ◌&&◌, ◌||◌, Option, none, some, List,
  [], ◌∷◌, ◌++◌, map, ltb, ◌==◌, if◌then◌else◌,
}
use rosemary_virsree.Prelude.Int.{ℤ, pos, pos_part, ltb_ℤ, ◌+ℤ◌, wrap64}
use rosemary_virsree.Prelude.Text.{Str, codes, str_eq, trim_prefix}
use rosemary_virsree.Prelude.Table.{any, select}
use rosemary_virsree.Prelude.Sorting.{sort, limit}
use rosemary_virsree.Prelude.Results.{
  Error, Result, ok, err, source_capacity, capacity_below_usage, no_capacity, size_required,
  bad_key, expiry_required, remote_failed, size_mismatch, promoted_mismatch,
}
use rosemary_virsree.Model.{Object, Upload, Db, pending}
use rosemary_virsree.Store.Columns.{deletion_of}
use rosemary_virsree.Store.Upload.{require_active_bucket, reserve_object, get_upload, object_of}
use rosemary_virsree.Store.Commit.{Committed, commit_upload, cancel_upload}
use rosemary_virsree.Store.Sources.{set_upload_transfer_hash}
use rosemary_virsree.Store.Deletion.{second, prune_upload_grants, forget_upload_grant}
use rosemary_virsree.Service.World.{
  Head, Remote, World, Action, pure, fail, lift, query, transact, transact_with, exec, effect,
  ignore, or_undo, require, ◌>>=◌, ◌>>◌,
}
use rosemary_virsree.Service.Backends.{Runtime, Manager, backend, candidates}

-- fmt's %d
unfoldable pub decimal_digits : ℕ → ℕ → Str
decimal_digits zero n = []
decimal_digits (suc fuel) n =
    let rest = decimal_digits fuel (n / 10) in (if ltb n 10 then [] else rest) ++ (48 + n % 10) ∷ []

unfoldable pub decimal : ℕ → Str
unfolding decimal_digits
decimal n = decimal_digits (suc n) n

abbrev pub slash : Str
slash = codes "/"

abbrev pub namespace : Str → Str
namespace bucket = codes "rosemary/" ++ (bucket ++ slash)

abbrev pub staging_namespace : Str → Str
staging_namespace bucket = codes "rosemary-staging/" ++ (bucket ++ slash)

unfoldable pub physical : Str → Str → ℕ → Str
physical bucket key generation =
    namespace bucket ++ (codes "g" ++ (decimal generation ++ (slash ++ trim_prefix key slash)))

unfoldable pub staging_physical : Str → Str → Str → Str
staging_physical bucket upload key =
    staging_namespace bucket ++ (upload ++ (slash ++ trim_prefix key slash))

abbrev pub length : Str → ℕ
length [] = 0
length (_ ∷ s) = suc (length s)

-- time.Now().Add(time.Duration(expires)*time.Second), where the product may wrap.
abbrev pub after_seconds : ℕ → ℤ → ℕ
after_seconds now expires = pos_part (pos now +ℤ wrap64 (pos (pos_part expires * second)))

-- strings.Contains(e.Error(), "storage source capacity")
abbrev pub is_capacity : Error → Bool
is_capacity source_capacity = true
is_capacity capacity_below_usage = true
is_capacity _ = false

unfoldable pub expired_uploads : ℕ → ℕ → Db → List Object
expired_uploads now n db = map object_of (
    limit n (
      sort (λ u v. ltb u.expires_at v.expires_at)
        (select
          (λ u. not (any (deletion_of u.bucket_id) db.bucket_deletions) && ltb u.expires_at now)
          db.uploads)))

abbrev pub signed : {W : Type 0} → Option Str → Action W Str
signed none = fail remote_failed
signed (some url) = pure url

module _ {W : Type 0} (remote : Remote W) (m : Manager) where
  -- An upload stays where its backend is missing or does not delete the staged file.
  unfoldable pub cleanup_each : List Object → Action W (Unit {0})
  unfolding backend
  cleanup_each [] = pure tt
  cleanup_each (o ∷ os) =
      ignore (do
        source ← lift (backend m o.source_id)
        effect (remote.delete source o.physical_key)
        transact (cancel_upload o.id))
      >> cleanup_each os

  unfoldable pub cleanup_expired_uploads : ℕ → Action W (Unit {0})
  unfolding cleanup_each
  cleanup_expired_uploads now = do
    exec (prune_upload_grants now)
    os ← query (λ db. ok (expired_uploads now 100 db))
    cleanup_each os

  abbrev pub staged : Str → Object → Str → Object
  staged bucket o source = record o {
    source_id = source;
    physical_key = staging_physical bucket o.id o.logical_key;
  }

  -- The loop over the candidates: the first source that has the capacity takes the upload.
  unfoldable pub reserve_on : Str → Object → ℕ → ℤ → ℤ → List Runtime → Action W Object
  reserve_on bucket o expires_at max_objects max_pending [] w = (err no_capacity, w)
  reserve_on bucket o expires_at max_objects max_pending (c ∷ cs) w =
      let o' = staged bucket o c.meta.id in
      elim (reserve_object o' expires_at max_objects max_pending w.db) [
        | ok db ↦ (ok o', record w { db = db })
        | err e ↦ elim (is_capacity e) [
          | true ↦ reserve_on bucket o expires_at max_objects max_pending cs w
          | false ↦ (err e, w)
        ]
      ]

  -- CancelUpload, and where it succeeds ForgetUploadGrant.
  abbrev pub abandon : Str → Action W (Unit {0})
  abandon id = transact (cancel_upload id) >> exec (forget_upload_grant id)

  -- The upload's row and its URL: presigned, or the relay's with a token that hashes to `hash`.
  unfoldable pub begin_upload :
      ℕ → Str → Str → Str → Str → ℤ → ℤ → ℤ → ℤ → Str → Str → Action W (Object × Str)
  unfolding cleanup_expired_uploads reserve_on candidates
  begin_upload now id bucket key content_type size expires max_objects max_pending hash relay = do
    query (require_active_bucket bucket)
    require (ltb_ℤ size (pos 0)) size_required
    let key' = trim_prefix key slash
    require (str_eq key' [] || ltb 1024 (length key')) bad_key
    require (ltb_ℤ expires (pos 1)) expiry_required
    cleanup_expired_uploads now
    o ←
        reserve_on bucket
          (record {
            id = id;
            bucket_id = bucket;
            source_id = [];
            logical_key = key';
            physical_key = [];
            content_type = content_type;
            etag = [];
            status = [];
            size = pos_part size;
            generation = now;
            public = false;
            created_at = now;
            updated_at = now;
          })
          (after_seconds now expires) max_objects max_pending (candidates m)
    url ←
        or_undo
          (if str_eq (remote.kind o.source_id) (codes "s3")
            then (λ w. signed (remote.presign o.source_id o.physical_key w.remote) w)
            else (exec (set_upload_transfer_hash o.id hash) >> pure relay))
          (abandon o.id)
    pure (o, url)

  abbrev pub headed : Option Head → Action W Head
  headed none = fail remote_failed
  headed (some h) = pure h

  abbrev pub head_at : Str → Str → Action W Head
  head_at source key w = headed (remote.head source key w.remote) w

  abbrev pub final_generation : ℕ → ℕ → ℕ
  final_generation now generation = if now == generation then now + 1 else now

  abbrev pub checked : Head → Head → Action W Head
  checked h h' = require (not (h'.size == h.size)) promoted_mismatch >> pure h'

  -- Delete the replaced file where its backend is still there; failures are dropped.
  abbrev pub discard : Str → Str → Action W (Unit {0})
  discard source key = ignore (do b ← lift (backend m source); effect (remote.delete b key))

  abbrev pub with_db : Result Committed → Result (Committed × Db)
  with_db (ok r) = ok (r, r.db)
  with_db (err e) = err e

  unfoldable pub commit : ℕ → Str → Str → Str → Action W Object
  unfolding backend
  commit now bucket id key = do
    query (require_active_bucket bucket)
    o ← query (get_upload bucket id key)
    source ← lift (backend m o.source_id)
    h ← head_at source o.physical_key
    require (not (h.size == o.size)) size_mismatch
    let final = physical bucket o.logical_key (final_generation now o.generation)
    effect (remote.copy source o.physical_key final)
    h' ←
        or_undo (do h' ← head_at source final; checked h h')
          (ignore (effect (remote.delete source final)))
    r ←
        or_undo
          (transact_with (λ db.
            with_db (commit_upload now (record o { physical_key = final }) h'.etag h'.size db)))
          (ignore (effect (remote.delete source final)))
    ignore (effect (remote.delete source o.physical_key))
    if str_eq r.old_physical [] || str_eq r.old_physical r.object.physical_key
        then pure tt
        else discard r.old_source r.old_physical
    pure r.object
