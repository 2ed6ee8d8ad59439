-- ===== src/Tests/Requests.antt =====
-- Requests of the services at the sample database, with stores that answer as they should and stores
-- that fail.
use rosemary_virsree.Prelude.{
  true, false, ℕ, ◌≡◌, ◌⊎◌, refl, Bool, true, false, ◌&&◌, some, [], ◌∷◌,
}
use rosemary_virsree.Prelude.Int.{pos}
use rosemary_virsree.Prelude.Text.{Str, codes, str_eq, has_prefix}
use rosemary_virsree.Prelude.Table.{any}
use rosemary_virsree.Prelude.Sorting.{insert, sort}
use rosemary_virsree.Prelude.Results.{Result, ok, remote_failed}
use rosemary_virsree.Model.{Object, Db}
use rosemary_virsree.Store.Upload.{get_upload, object_of, reserve_object}
use rosemary_virsree.Store.Commit.{Committed, commit_upload, cancel_upload}
use rosemary_virsree.Store.Deletion.{forget_upload_grant}
use rosemary_virsree.Store.Quota.Cancel.{reserve-cancel-forget}
use rosemary_virsree.Service.World.{Remote, World}
use rosemary_virsree.Service.Backends.{
  Manager, runtime_is, comes_before, legacy_source, legacy_ready, candidates, primary, backend,
}
use rosemary_virsree.Service.Backends.Primary.{is_usable, Member, primary-first}
use rosemary_virsree.Service.Uploads.{
  physical, staging_physical, namespace, staging_namespace, staged, reserve_on, final_generation,
  commit,
}
use rosemary_virsree.Service.Uploads.Namespaces.{physical-namespace}
use rosemary_virsree.Service.Uploads.Commits.{commit-error_keeps, commit-committed}
use rosemary_virsree.Service.Uploads.Reserving.{reserve_on-reserved}
use rosemary_virsree.Tests.Sample.{
  bkt, src, doc, second, row, upload, full, full_source, before, sample, tables, uploads,
}

-- Stores that hold 80 bytes under every key and whose effects succeed or fail as the flag says.
abbrev pub stores : Bool → Remote (Unit {0})
stores works = record {
  kind = λ _. codes "s3";
  head = λ _ _ _. some (record { size = 80; etag = codes "e2" });
  copy = λ _ _ _ _. (works, tt);
  delete = λ _ _ _. (works, tt);
  purge_prefix = λ _ _ _. (works, tt);
  presign = λ _ _ _. some (codes "url");
}

abbrev pub manager : Manager
manager = record {
  sources = record { meta = full_source; is_ready = true } ∷ [];
  legacy = some true;
}

abbrev pub world : Db → World (Unit {0})
world db = record { db = db; remote = tt }

unfoldable pub requests : ℕ
unfolding uploads cancel_upload forget_upload_grant insert sort candidates primary backend
    reserve_on commit
requests = 0

reserve-cancel-forget_example :
    (db : Db) × (cancel_upload second sample ≡ ok db) × (forget_upload_grant second db ≡ before)
unfolding requests
reserve-cancel-forget_example =
    reserve-cancel-forget upload 2000 (pos 10) (pos 10) before sample refl

physical-namespace_example :
    (has_prefix (physical bkt doc 7) (namespace (codes "bkt_b")) ≡ str_eq bkt (codes "bkt_b"))
    × (has_prefix (staging_physical bkt second doc) (staging_namespace (codes "bkt_b"))
        ≡ str_eq bkt (codes "bkt_b"))
unfolding tables
physical-namespace_example = physical-namespace bkt (codes "bkt_b") doc second 7 refl refl

primary-first_example :
    (is_usable (record { meta = full_source; is_ready = true }) ≡ true)
    × (any
          (λ t. is_usable t && comes_before t (record { meta = full_source; is_ready = true }))
          manager.sources
        ≡ false)
    × (Member (record { meta = full_source; is_ready = true }) manager.sources
        ⊎ ((record { meta = full_source; is_ready = true } ≡ legacy_source)
            × (legacy_ready manager.legacy ≡ true)
            × (any is_usable manager.sources ≡ false)))
unfolding requests
primary-first_example = primary-first manager (record { meta = full_source; is_ready = true }) refl

abbrev blank : Object
blank = record upload { source_id = []; physical_key = [] }

abbrev placed : Object
placed = staged (stores true) manager bkt blank src

abbrev after_reserve : Db
after_reserve = record sample {
  uploads = record row { physical_key = staging_physical bkt second doc } ∷ [];
}

reserve_on-reserved_example :
    (placed ≡ staged (stores true) manager bkt blank src)
    × (any (runtime_is src) (candidates manager) ≡ true)
    × (reserve_object placed 2000 (pos 10) (pos 10) before ≡ ok after_reserve)
    × ((world after_reserve).remote ≡ (world before).remote)
unfolding requests
reserve_on-reserved_example =
    reserve_on-reserved (stores true) manager bkt blank placed 2000 (pos 10) (pos 10)
      (candidates manager) (world before) (world after_reserve) refl

abbrev failing_commit : Result Object × World (Unit {0})
failing_commit = commit (stores false) manager 6 bkt second doc (world sample)

commit-error_keeps_example : failing_commit.1.db ≡ sample
unfolding requests
commit-error_keeps_example =
    commit-error_keeps (stores false) manager 6 bkt second doc (world sample) failing_commit.1
      remote_failed refl

abbrev final_key : Str
final_key = physical bkt doc 6

abbrev new_document : Object
new_document = record (object_of row) {
  id = codes "obj_1";
  physical_key = final_key;
  etag = codes "e2";
  status = codes "ready";
  generation = 2;
  updated_at = 6;
}

abbrev committed_db : Db
committed_db = record before {
  buckets = record full { used_bytes = 80 } ∷ [];
  sources = record full_source { used_bytes = 80 } ∷ [];
  objects = new_document ∷ [];
  upload_grants = sample.upload_grants;
}

commit-committed_example :
    (u : Object) × (etag : Str) × (r : Committed) × (get_upload bkt second doc sample ≡ ok u)
    × (commit_upload 6
          (record u {
            physical_key =
                physical bkt u.logical_key (final_generation (stores true) manager 6 u.generation);
          })
          etag
          u.size
          sample
        ≡ ok r)
    × (r.object ≡ new_document)
    × (committed_db ≡ r.db)
unfolding requests physical
commit-committed_example =
    commit-committed (stores true) manager 6 bkt second doc (world sample) (world committed_db)
      new_document refl
