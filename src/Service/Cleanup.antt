-- ===== src/Service/Cleanup.antt =====
-- internal/service/bucket_delete.go: the two requests that delete a bucket, and the worker that
-- removes its files and then its rows.
pub mod Keeps
pub mod Purges
use rosemary_virsree.Prelude.{
  ℕ, ◌+◌, ◌*◌, Bool, true, false, not, ◌&&◌, ◌||◌, Option, none, some, List, [], ◌∷◌, ◌++◌, map,
  ltb, if◌then◌else◌,
}
use rosemary_virsree.Prelude.Text.{Str, codes, str_eq}
use rosemary_virsree.Prelude.Table.{find, any, select, count}
use rosemary_virsree.Prelude.Sorting.{sort, limit}
use rosemary_virsree.Prelude.Results.{Error, Result, ok, err, confirmation_mismatch, source_missing}
use rosemary_virsree.Model.{
  Object, Upload, TransferToken, StorageSource, BucketDeletion, Tombstone, Db,
}
use rosemary_virsree.Store.Columns.{is_ready, object_in, upload_in, deletion_of}
use rosemary_virsree.Store.Buckets.{get_bucket}
use rosemary_virsree.Store.Deletion.{
  second, minute, begin_bucket_deletion, prepare_bucket_deletion, finish_bucket_deletion,
  bucket_deletion_error, of_bucket, update_bucket_cleanup_tombstone,
}
use rosemary_virsree.Service.World.{
  Remote, World, Action, pure, fail, lift, query, transact, transact_with, exec, effect, require,
  ◌>>=◌, ◌>>◌,
}
use rosemary_virsree.Service.Backends.{
  Runtime, Manager, runtime_is, legacy_ready, list_storage_sources,
}
use rosemary_virsree.Service.Uploads.{namespace, staging_namespace}

unfoldable pub delete_bucket : {W : Type 0} → ℕ → Str → Str → Str → Action W (Unit {0})
delete_bucket now slug confirmation hash = do
  require (not (str_eq confirmation slug)) confirmation_mismatch
  b ← query (get_bucket slug)
  transact (begin_bucket_deletion now b.id hash)

abbrev pub prepared : {W : Type 0} → World W → Db × Result (Unit {0}) → Result (Unit {0}) × World W
prepared w (db, r) = (r, record w { db = db })

-- The time from which the confirmation with the token that hashes to `hash` is good.
unfoldable pub prepare_deletion : {W : Type 0} → ℕ → Str → Str → Action W ℕ
prepare_deletion now slug hash = do
  b ← query (get_bucket slug)
  let ready = now + 5 * second
  (λ w. prepared w (prepare_bucket_deletion now b.id hash ready (ready + 15 * minute) w.db))
  pure ready

unfoldable pub pending_bucket_deletions : Db → List BucketDeletion
pending_bucket_deletions db = sort (λ c d. ltb c.requested_at d.requested_at) db.bucket_deletions

unfoldable pub due_tombstones : ℕ → Db → List Tombstone
due_tombstones now db =
    limit 50
      (sort (λ s t. ltb s.next_at t.next_at) (select (λ t. not (ltb now t.next_at)) db.tombstones))

-- The sources that hold files of the bucket. The UNION drops repetitions, which the loop over the
-- result does not notice.
unfoldable pub bucket_physical_sources : Str → Db → List Str
bucket_physical_sources id db =
    map Object.source_id (select (object_in id) db.objects)
    ++ map Upload.source_id (select (upload_in id) db.uploads)
    ++ map TransferToken.source_id (select (λ t. of_bucket id db t.object_id) db.transfer_tokens)

abbrev pub prefixes : Str → Bool → List Str
prefixes id true = staging_namespace id ∷ []
prefixes id false = namespace id ∷ staging_namespace id ∷ []

module _ {W : Type 0} (remote : Remote W) (m : Manager) where
  abbrev pub is_known : Str → Bool
  is_known id = if str_eq id [] then legacy_ready m.legacy else any (runtime_is id) m.sources

  unfoldable pub purge_each : Str → List Str → Action W (Unit {0})
  purge_each source [] = pure tt
  purge_each source (p ∷ ps) = effect (remote.purge_prefix source p) >> purge_each source ps

  unfoldable pub purge_all : List Str → List Str → Action W (Unit {0})
  unfolding purge_each
  purge_all [] ps = pure tt
  purge_all (b ∷ bs) ps = purge_each b ps >> purge_all bs ps

  -- The backends of all sources, disabled ones too, and the legacy one.
  abbrev pub backends : Db → List Str
  backends db =
      map StorageSource.id (list_storage_sources db)
      ++ (if legacy_ready m.legacy then [] ∷ [] else [])

  abbrev pub is_empty : List Str → Bool
  is_empty [] = true
  is_empty (_ ∷ _) = false

  unfoldable pub sweep_bucket_namespaces : Str → Bool → Action W (Unit {0})
  unfolding purge_all
  sweep_bucket_namespaces id staging_only = do
    missing ←
        query
          (λ db. ok (any (λ s. not (any (runtime_is s.id) m.sources)) (list_storage_sources db)))
    require missing source_missing
    stores ← query (λ db. ok (backends db))
    held ← query (λ db. ok (any (λ o. object_in id o && is_ready o) db.objects))
    require (is_empty stores && (not staging_only && held)) source_missing
    purge_all stores (prefixes id staging_only)

  -- `after` is the cleanup_after of the job.
  unfoldable pub clean_bucket : ℕ → Str → ℕ → Action W (Unit {0})
  unfolding sweep_bucket_namespaces bucket_physical_sources
  clean_bucket now id after = do
    held ← query (λ db. ok (any (λ s. not (is_known s)) (bucket_physical_sources id db)))
    require held source_missing
    sweep_bucket_namespaces id false
    if ltb now after then pure tt else transact (finish_bucket_deletion now id)

  abbrev pub failed : Str
  failed = codes "bucket_cleanup_failed"

  abbrev pub noted : ℕ → BucketDeletion → Result (Unit {0}) × World W → World W
  noted now job (err e, w) = record w { db = bucket_deletion_error job.bucket_id failed w.db }
  noted now job (ok _, w) =
      if ltb now job.cleanup_after
      then record w { db = bucket_deletion_error job.bucket_id [] w.db }
      else w

  unfoldable pub clean_jobs : ℕ → List BucketDeletion → World W → World W
  unfolding clean_bucket
  clean_jobs now [] w = w
  clean_jobs now (job ∷ jobs) w =
      clean_jobs now jobs (noted now job (clean_bucket now job.bucket_id job.cleanup_after w))

  abbrev pub swept : ℕ → Tombstone → Result (Unit {0}) × World W → World W
  swept now t (ok _, w) = record w {
    db = update_bucket_cleanup_tombstone now t.bucket_id (not (ltb now t.until_at)) w.db;
  }
  swept now t (err e, w) = record w {
    db = update_bucket_cleanup_tombstone now t.bucket_id false w.db;
  }

  unfoldable pub sweep_tombstones : ℕ → List Tombstone → World W → World W
  unfolding sweep_bucket_namespaces
  sweep_tombstones now [] w = w
  sweep_tombstones now (t ∷ ts) w =
      sweep_tombstones now ts (swept now t (sweep_bucket_namespaces t.bucket_id true w))

  unfoldable pub cleanup_buckets : ℕ → World W → World W
  unfolding clean_jobs sweep_tombstones
  cleanup_buckets now w =
      let w' = clean_jobs now (pending_bucket_deletions w.db) w in
      sweep_tombstones now (due_tombstones now w'.db) w'
