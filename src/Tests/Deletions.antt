-- ===== src/Tests/Deletions.antt =====
-- Deleting the sample's bucket.
use rosemary_virsree.Prelude.{
  ℕ, ◌+◌, ◌*◌, ◌≤◌, ◌<◌, ◌≡◌, ◌⊎◌, refl, ap, ◌∙◌, none, some, true, false, not, ◌&&◌, List, [], ◌∷◌,
  ◌++◌, arith,
}
use rosemary_virsree.Prelude.Int.{pos}
use rosemary_virsree.Prelude.Text.{Str, codes, str_eq, str_eq_iff}
use rosemary_virsree.Prelude.Table.{find, any, select, count}
use rosemary_virsree.Prelude.Results.{ok}
use rosemary_virsree.Model.{Bucket, AccessKey, BucketDeletion, Confirmation, Object, PublicLink, Db}
use rosemary_virsree.Store.Columns.{bucket_is, deletion_of, object_is, object_in, upload_in}
use rosemary_virsree.Store.Keys.{create_access_key}
use rosemary_virsree.Store.Deletion.{
  of_bucket, minute, week, latest_grant, start_deletion, begin_bucket_deletion,
  prepare_bucket_deletion, finish_bucket_deletion,
}
use rosemary_virsree.Store.Deletion.Waits.{
  outlives, begin_bucket_deletion-confirmed, begin_bucket_deletion-cuts_off,
}
use rosemary_virsree.Store.Deletion.Finish.{
  finish_bucket_deletion-erases, finish_bucket_deletion-isolated,
}
use rosemary_virsree.Store.Steps.{Op, run, empty}
use rosemary_virsree.Store.Steps.Grants.{finish_waits_for_grants}
use rosemary_virsree.Tests.Sample.{
  bkt, doc, document, bucket, source, intent, second, setup, replacing, sample, uploads,
}

abbrev key : AccessKey
key = record {
  id = codes "key_1";
  bucket_id = bkt;
  name = [];
  ak = codes "RVS1";
  secret_cipher = [];
  permissions = codes "read";
  revoked = false;
  created_at = 5;
}

abbrev token : Str
token = codes "hash"

abbrev confirmed : List (ℕ × Op)
confirmed = (6, Op.new_key key) ∷ (7, Op.prepare_deletion bkt token 12 900) ∷ []

-- With the key and the confirmation.
abbrev armed : Db
armed = record sample {
  access_keys = key ∷ [];
  confirmations =
      record { token_hash = token; bucket_id = bkt; ready_at = 12; expires_at = 900 } ∷ [];
}

-- After BeginBucketDeletion: the cleanup waits for the sample's second grant.
abbrev begun : Db
begun = record sample {
  access_keys = record key { revoked = true } ∷ [];
  bucket_deletions =
      record {
        bucket_id = bkt;
        requested_at = 20;
        cleanup_after = 2000 + minute;
        last_error_code = [];
      }
      ∷ [];
}

abbrev late : ℕ
late = 2000 + minute

-- After FinishBucketDeletion.
abbrev finished : Db
finished = record empty {
  sources = source ∷ [];
  tombstones =
      record { bucket_id = bkt; until_at = late + week; next_at = late + 15 * minute } ∷ [];
}

unfoldable deletions : ℕ
unfolding uploads begin_bucket_deletion prepare_bucket_deletion finish_bucket_deletion
    create_access_key latest_grant
deletions = 0

run-begun : run (confirmed ++ (20, Op.begin_deletion bkt token) ∷ []) sample ≡ begun
unfolding deletions
run-begun = refl

begin_bucket_deletion-confirmed_example :
    ((any (deletion_of bkt) armed.bucket_deletions ≡ true) × (begun ≡ armed))
    ⊎ ((c : Confirmation) × (find
            (λ c. str_eq c.bucket_id bkt && str_eq c.token_hash token)
            armed.confirmations
          ≡ some c)
        × (c.ready_at ≤ 20)
        × (20 < c.expires_at)
        × (begun ≡ start_deletion 20 bkt armed))
unfolding deletions
begin_bucket_deletion-confirmed_example =
    begin_bucket_deletion-confirmed 20 bkt token armed begun refl

begin_bucket_deletion-cuts_off_example :
    (d : BucketDeletion) × (find (deletion_of bkt) begun.bucket_deletions ≡ some d)
    × (20 ≤ d.cleanup_after)
    × (count (outlives bkt d.cleanup_after) begun.upload_grants ≡ 0)
    × (count (λ k. str_eq k.bucket_id bkt && not k.revoked) begun.access_keys ≡ 0)
    × (count (λ c. str_eq c.bucket_id bkt) begun.confirmations ≡ 0)
unfolding deletions
begin_bucket_deletion-cuts_off_example =
    begin_bucket_deletion-cuts_off 20 bkt token armed begun refl refl

abbrev ninth : Object
ninth = intent (codes "obj_9") doc (codes "stage/9") 1

abbrev final : Object
final = intent second doc (codes "final/2") 80

abbrev other_key : AccessKey
other_key = record key { id = codes "key_2"; ak = codes "RVS2" }

finish_bucket_deletion-erases_example :
    (count (bucket_is bkt) finished.buckets ≡ 0)
    × (count (object_in bkt) finished.objects ≡ 0)
    × (count (upload_in bkt) finished.uploads ≡ 0)
    × (count (λ g. str_eq g.bucket_id bkt) finished.upload_grants ≡ 0)
    × (count (λ k. str_eq k.bucket_id bkt) finished.access_keys ≡ 0)
    × (count (λ c. str_eq c.bucket_id bkt) finished.confirmations ≡ 0)
    × (count (deletion_of bkt) finished.bucket_deletions ≡ 0)
    × (count (λ l. of_bucket bkt begun l.object_id) finished.public_links ≡ 0)
    × (count (λ t. of_bucket bkt begun t.object_id) finished.transfer_tokens ≡ 0)
    × (any (λ t. str_eq t.bucket_id bkt) finished.tombstones ≡ true)
unfolding deletions
finish_bucket_deletion-erases_example = finish_bucket_deletion-erases late bkt begun finished refl

-- A second bucket beside the one that is deleted.
abbrev neighbour : Bucket
neighbour = record bucket { id = codes "bkt_b"; slug = codes "b-bucket" }

abbrev photo : Object
photo = record document {
  id = codes "obj_n";
  bucket_id = neighbour.id;
  source_id = [];
  logical_key = codes "photo";
  physical_key = codes "n/photo";
}

abbrev link_to : Str → PublicLink
link_to object = record {
  id = object;
  object_id = object;
  slug = object;
  sign_ttl_seconds = pos 60;
  expires_at = none;
  revoked = false;
  created_at = 6;
}

-- Both buckets hold an object with a public link.
abbrev two_begun : Db
two_begun = record begun {
  buckets = neighbour ∷ begun.buckets;
  objects = photo ∷ begun.objects;
  public_links = link_to photo.id ∷ link_to document.id ∷ [];
}

abbrev one_finished : Db
one_finished = record finished {
  buckets = neighbour ∷ [];
  objects = photo ∷ [];
  public_links = link_to photo.id ∷ [];
}

two_begun-ids : (i : Str) → count (object_is i) two_begun.objects ≤ 1
unfolding count
two_begun-ids i = ground (arith, str_eq_iff photo.id i, str_eq_iff document.id i)

finish_bucket_deletion-isolated_example :
    (select (bucket_is neighbour.id) one_finished.buckets
      ≡ select (bucket_is neighbour.id) two_begun.buckets)
    × (select (object_in neighbour.id) one_finished.objects
        ≡ select (object_in neighbour.id) two_begun.objects)
    × (select (upload_in neighbour.id) one_finished.uploads
        ≡ select (upload_in neighbour.id) two_begun.uploads)
    × (select (λ g. str_eq g.bucket_id neighbour.id) one_finished.upload_grants
        ≡ select (λ g. str_eq g.bucket_id neighbour.id) two_begun.upload_grants)
    × (select (λ k. str_eq k.bucket_id neighbour.id) one_finished.access_keys
        ≡ select (λ k. str_eq k.bucket_id neighbour.id) two_begun.access_keys)
    × (select (λ c. str_eq c.bucket_id neighbour.id) one_finished.confirmations
        ≡ select (λ c. str_eq c.bucket_id neighbour.id) two_begun.confirmations)
    × (select (deletion_of neighbour.id) one_finished.bucket_deletions
        ≡ select (deletion_of neighbour.id) two_begun.bucket_deletions)
    × (select (λ t. str_eq t.bucket_id neighbour.id) one_finished.tombstones
        ≡ select (λ t. str_eq t.bucket_id neighbour.id) two_begun.tombstones)
    × (select (λ l. of_bucket neighbour.id two_begun l.object_id) one_finished.public_links
        ≡ select (λ l. of_bucket neighbour.id two_begun l.object_id) two_begun.public_links)
    × (select (λ t. of_bucket neighbour.id two_begun t.object_id) one_finished.transfer_tokens
        ≡ select (λ t. of_bucket neighbour.id two_begun t.object_id) two_begun.transfer_tokens)
unfolding deletions
finish_bucket_deletion-isolated_example =
    finish_bucket_deletion-isolated late bkt neighbour.id two_begun one_finished two_begun-ids
      (ground arith) refl

abbrev history : List (ℕ × Op)
history = setup ++ replacing ++ confirmed ++ (20, Op.begin_deletion bkt token) ∷ []

run-history : run history empty ≡ begun
unfolding deletions
run-history = refl

finish-begun : finish_bucket_deletion late bkt begun ≡ ok finished
unfolding deletions
finish-begun = refl

finish-history : finish_bucket_deletion late bkt (run history empty) ≡ ok finished
finish-history = ap (finish_bucket_deletion late bkt) run-history ∙ finish-begun

finish_waits_for_grants_example : count (outlives bkt late) (run history empty).upload_grants ≡ 0
finish_waits_for_grants_example = finish_waits_for_grants history late bkt finished finish-history
