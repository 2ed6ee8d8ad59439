-- ===== src/Tests/Objects.antt =====
-- Authentication, permissions, listings, deletion and rotation at the sample database.
use rosemary_virsree.Prelude.{
  true, false, if◌then◌else◌, ℕ, ◌≤◌, ◌<◌, ◌≡◌, ◌⊎◌, refl, some, none, Option, inl, inr, Bool, ◌&&◌,
  arith, [], ◌∷◌,
}
use rosemary_virsree.Prelude.Text.{Str, codes, str_eq, str_eq_refl, has_prefix}
use rosemary_virsree.Prelude.Table.{find}
use rosemary_virsree.Store.Columns.{bucket_is}
use rosemary_virsree.Prelude.Results.{Result, ok, remote_failed}
use rosemary_virsree.Model.{AccessKey, Db}
use rosemary_virsree.Store.Upload.{require_active_bucket}
use rosemary_virsree.Store.Commit.{get_object}
use rosemary_virsree.Store.Keys.{access_by_ak}
use rosemary_virsree.Store.Deletion.{finish_bucket_deletion}
use rosemary_virsree.Service.World.{Remote, World}
use rosemary_virsree.Service.Backends.{list_storage_sources}
use rosemary_virsree.Service.Objects.{rotate_object_key}
use rosemary_virsree.Service.Objects.Failures.{rotate_object_key-error_keeps}
use rosemary_virsree.Service.Keys.{has, authenticate, normal_permissions, all_permissions}
use rosemary_virsree.Service.Keys.Permissions.{has-normal_permissions}
use rosemary_virsree.Service.Keys.Authenticate.{authenticate_sound}
use rosemary_virsree.Service.Cleanup.{clean_bucket}
use rosemary_virsree.Service.Cleanup.Keeps.{clean_bucket-error_keeps}
use rosemary_virsree.Service.Cleanup.Purges.{clean_bucket-purges}
use rosemary_virsree.Tests.Sample.{bucket, source, bkt, src, doc, reserved, before, sample}
use rosemary_virsree.Tests.Requests.{stores, manager, world, requests}

abbrev key : AccessKey
key = record {
  id = codes "key_1";
  bucket_id = bkt;
  name = [];
  ak = codes "RVS1";
  secret_cipher = codes "cipher";
  permissions = codes "read,write";
  revoked = false;
  created_at = 5;
}

abbrev with_key : Db
with_key = record sample { access_keys = key ∷ [] }

abbrev same : Str → Str
same s = s

-- A box whose ciphers open to one secret.
abbrev unseal : Str → Result Str
unseal _ = ok (codes "secret")

authenticate_sound_example :
    (find (λ r. str_eq r.ak (codes "RVS1")) with_key.access_keys ≡ some key)
    × (find (bucket_is key.bucket_id) with_key.buckets ≡ some reserved)
    × (key.ak ≡ codes "RVS1")
    × (key.revoked ≡ false)
    × (unseal key.secret_cipher ≡ ok (codes "secret"))
    × (has same same key.permissions (codes "write") ≡ true)
    × (key.bucket_id ≡ reserved.id)
    × (require_active_bucket key.bucket_id with_key ≡ ok tt)
    × (world with_key ≡ world with_key)
unfolding requests authenticate access_by_ak
authenticate_sound_example =
    authenticate_sound same same unseal (codes "RVS1") (codes "secret") (codes "write")
      (world with_key) (world with_key) key reserved refl

abbrev deleting : Db
deleting = record sample {
  bucket_deletions =
      record { bucket_id = bkt; requested_at = 20; cleanup_after = 3000; last_error_code = [] }
      ∷ [];
}

abbrev failing_cleanup : Result (Unit {0}) × World (Unit {0})
failing_cleanup = clean_bucket (stores false) manager 5000 bkt 3000 (world deleting)

clean_bucket-error_keeps_example : failing_cleanup.1.db ≡ deleting
unfolding requests clean_bucket list_storage_sources
clean_bucket-error_keeps_example =
    clean_bucket-error_keeps (stores false) manager 5000 bkt 3000 (world deleting) failing_cleanup.1
      remote_failed refl

-- Stores as the files that they hold under the sources' ids and the keys.
abbrev Files : Type 0
Files = Str → Str → Option Str

abbrev purge : Str → Str → Files → Bool × Files
purge s p files = (true, λ t key. if str_eq t s && has_prefix key p then none else files t key)

abbrev purging : Remote Files
purging = record {
  kind = λ _. codes "s3";
  head = λ _ _ _. none;
  copy = λ _ _ _ files. (false, files);
  delete = λ _ _ files. (false, files);
  purge_prefix = purge;
  presign = λ _ _ _. none;
}

purge-clears :
    (s p key : Str) (files : Files)
    → (purge s p files).0 ≡ true
    → has_prefix key p ≡ true
    → (purge s p files).1 s key ≡ none
purge-clears s p key files went inside = ground (arith, inside, str_eq_refl s)

purge-stays :
    (s p t key : Str) (files : Files) → files t key ≡ none → (purge s p files).1 t key ≡ none
purge-stays s p t key files gone = ground (arith, gone)

-- Every store holds a file under every key.
abbrev held : World Files
held = record { db = deleting; remote = λ _ _. some (codes "x") }

abbrev cleaned : Result (Unit {0}) × World Files
cleaned = clean_bucket purging manager 100 bkt 3000 held

abbrev staged_key : Str
staged_key = codes "rosemary-staging/bkt_a/obj_2/k"

clean_bucket-purges_example :
    (cleaned.1.remote src staged_key ≡ none)
    × (((100 < 3000) × (cleaned.1.db ≡ deleting))
        ⊎ ((3000 ≤ 100) × (finish_bucket_deletion 100 bkt deleting ≡ ok cleaned.1.db)))
unfolding requests clean_bucket list_storage_sources
clean_bucket-purges_example =
    clean_bucket-purges purging manager (λ files s key. files s key) purge-clears purge-stays 100
      bkt 3000 held cleaned.1 src staged_key (inl refl) (inr refl) refl

abbrev page_limit : ℕ
page_limit = 1

abbrev asked : Str
asked = codes "write,read,write"

has-normal_permissions_example :
    has same same (codes "write,read") (codes "read")
    ≡ has same same (if str_eq asked [] then all_permissions else asked) (codes "read")
unfolding requests normal_permissions
has-normal_permissions_example =
    has-normal_permissions same same (λ p known. refl) asked (codes "write,read") (codes "read")
      refl

abbrev failing_rotation : Result (Unit {0}) × World (Unit {0})
failing_rotation = rotate_object_key (stores false) manager 9 bkt doc (world before)

rotate_object_key-error_keeps_example : failing_rotation.1.db ≡ before
unfolding requests rotate_object_key get_object
rotate_object_key-error_keeps_example =
    rotate_object_key-error_keeps (stores false) manager 9 bkt doc (world before) failing_rotation.1
      remote_failed refl

abbrev emptied : Db
emptied = record before { buckets = bucket ∷ []; sources = source ∷ []; objects = [] }
