-- ===== src/Store/Deletion/Finish.antt =====
-- FinishBucketDeletion: when it may run, what it removes and what it leaves.
use rosemary_virsree.Prelude.{
  ℕ, ◌≤◌, ◌<◌, ◌≡◌, ◌≢◌, refl, ◌&&◌, List, [], ◌∷◌, true, false, some, none, arith, inl, inr,
  Bool-cases,
}
use rosemary_virsree.Prelude.Text.{Str, str_eq, str_eq_iff, str_eq_refl}
use rosemary_virsree.Prelude.Table.{find, any, select, count}
use rosemary_virsree.Prelude.Table.Rows.{count-remove_self, select-remove_ne}
use rosemary_virsree.Prelude.Results.{ok, err, grants_alive, not_found}
use rosemary_virsree.Model.{BucketDeletion, Tombstone, Object, Db}
use rosemary_virsree.Store.Columns.{bucket_is, deletion_of, object_is, object_in, upload_in}
use rosemary_virsree.Store.Deletion.{of_bucket, bury, erase_bucket, finish_bucket_deletion}

-- FinishBucketDeletion on every branch: an error where no deletion is recorded, an error before
-- `cleanup_after`, and from then on the erasure.
pub finish_bucket_deletion_lem :
    (now : ℕ) (id : Str) (db : Db)
    → (find (deletion_of id) db.bucket_deletions ≡ none
        → finish_bucket_deletion now id db ≡ err not_found)
      × ((d : BucketDeletion)
          → find (deletion_of id) db.bucket_deletions ≡ some d
          → now < d.cleanup_after
          → finish_bucket_deletion now id db ≡ err grants_alive)
      × ((d : BucketDeletion)
          → find (deletion_of id) db.bucket_deletions ≡ some d
          → d.cleanup_after ≤ now
          → finish_bucket_deletion now id db ≡ ok (erase_bucket now id db))
unfolding finish_bucket_deletion
finish_bucket_deletion_lem now id db =
    ((λ e. ground arith), (λ d e early. ground arith), (λ d e due. ground arith))

buried :
    (now : ℕ) (id : Str) (rows : List Tombstone)
    → any (λ t. str_eq t.bucket_id id) (bury id now rows) ≡ true
buried now id rows = elim (Bool-cases (any (λ t. str_eq t.bucket_id id) rows)) [
  | inl old ↦ rw old old
  | inr new ↦ rw new (unfold any in rw (str_eq_refl id) refl)
]

-- Only the deleted bucket gets a tombstone.
select-bury :
    (now : ℕ) (id j : Str) (rows : List Tombstone)
    → str_eq id j ≡ false
    → select (λ t. str_eq t.bucket_id j) (bury id now rows)
      ≡ select (λ t. str_eq t.bucket_id j) rows
select-bury now id j rows apart = elim (Bool-cases (any (λ t. str_eq t.bucket_id id) rows)) [
  | inl old ↦ rw old refl
  | inr new ↦ rw new (unfold select in rw apart refl)
]

absent :
    (i x : Str) (os : List Object)
    → count (object_is x) os ≡ 0
    → any (λ o. object_in i o && str_eq o.id x) os ≡ false
unfolding any count
absent i x [] none_left = refl
absent i x (o ∷ os) none_left = ground (arith, absent i x os)

-- Where no two objects have one id, an object lies in one bucket.
of_bucket_apart :
    (id j x : Str) (os : List Object)
    → str_eq id j ≡ false
    → count (object_is x) os ≤ 1
    → any (λ o. object_in j o && str_eq o.id x) os ≡ true
    → any (λ o. object_in id o && str_eq o.id x) os ≡ false
unfolding any count
of_bucket_apart id j x [] apart once h = refl
of_bucket_apart id j x (o ∷ os) apart once h = ground (
  arith,
  of_bucket_apart id j x os apart,
  str_eq_iff o.bucket_id id,
  str_eq_iff o.bucket_id j,
  str_eq_iff id j,
  absent id x os,
  absent j x os,
)

-- A successful FinishBucketDeletion leaves no row of the bucket but a tombstone, which it has or
-- gets: not the bucket, its objects, uploads, grants, keys or confirmations, no public link or
-- transfer token of an object that it had, nor the deletion itself.
pub finish_bucket_deletion-erases :
    (now : ℕ) (id : Str) (db db' : Db)
    → finish_bucket_deletion now id db ≡ ok db'
    → (count (bucket_is id) db'.buckets ≡ 0)
      × (count (object_in id) db'.objects ≡ 0)
      × (count (upload_in id) db'.uploads ≡ 0)
      × (count (λ g. str_eq g.bucket_id id) db'.upload_grants ≡ 0)
      × (count (λ k. str_eq k.bucket_id id) db'.access_keys ≡ 0)
      × (count (λ c. str_eq c.bucket_id id) db'.confirmations ≡ 0)
      × (count (deletion_of id) db'.bucket_deletions ≡ 0)
      × (count (λ l. of_bucket id db l.object_id) db'.public_links ≡ 0)
      × (count (λ t. of_bucket id db t.object_id) db'.transfer_tokens ≡ 0)
      × (any (λ t. str_eq t.bucket_id id) db'.tombstones ≡ true)
unfolding finish_bucket_deletion
finish_bucket_deletion-erases now id db db' h =
    let e : db' ≡ erase_bucket now id db = ground arith in
    rw e (
      count-remove_self (bucket_is id) db.buckets,
      count-remove_self (object_in id) db.objects,
      count-remove_self (upload_in id) db.uploads,
      count-remove_self (λ g. str_eq g.bucket_id id) db.upload_grants,
      count-remove_self (λ k. str_eq k.bucket_id id) db.access_keys,
      count-remove_self (λ c. str_eq c.bucket_id id) db.confirmations,
      count-remove_self (deletion_of id) db.bucket_deletions,
      count-remove_self (λ l. of_bucket id db l.object_id) db.public_links,
      count-remove_self (λ t. of_bucket id db t.object_id) db.transfer_tokens,
      buried now id db.tombstones,
    )

-- Where no two objects have one id, a successful FinishBucketDeletion leaves the rows of every other
-- bucket as they were: the bucket itself, its objects, uploads, grants, keys, confirmations, deletion
-- and tombstone, and the public links and transfer tokens of its objects.
pub finish_bucket_deletion-isolated :
    (now : ℕ) (id j : Str) (db db' : Db)
    → ((i : Str) → count (object_is i) db.objects ≤ 1)
    → j ≢ id
    → finish_bucket_deletion now id db ≡ ok db'
    → (select (bucket_is j) db'.buckets ≡ select (bucket_is j) db.buckets)
      × (select (object_in j) db'.objects ≡ select (object_in j) db.objects)
      × (select (upload_in j) db'.uploads ≡ select (upload_in j) db.uploads)
      × (select (λ g. str_eq g.bucket_id j) db'.upload_grants
          ≡ select (λ g. str_eq g.bucket_id j) db.upload_grants)
      × (select (λ k. str_eq k.bucket_id j) db'.access_keys
          ≡ select (λ k. str_eq k.bucket_id j) db.access_keys)
      × (select (λ c. str_eq c.bucket_id j) db'.confirmations
          ≡ select (λ c. str_eq c.bucket_id j) db.confirmations)
      × (select (deletion_of j) db'.bucket_deletions ≡ select (deletion_of j) db.bucket_deletions)
      × (select (λ t. str_eq t.bucket_id j) db'.tombstones
          ≡ select (λ t. str_eq t.bucket_id j) db.tombstones)
      × (select (λ l. of_bucket j db l.object_id) db'.public_links
          ≡ select (λ l. of_bucket j db l.object_id) db.public_links)
      × (select (λ t. of_bucket j db t.object_id) db'.transfer_tokens
          ≡ select (λ t. of_bucket j db t.object_id) db.transfer_tokens)
unfolding finish_bucket_deletion
finish_bucket_deletion-isolated now id j db db' once other h =
    let e : db' ≡ erase_bucket now id db = ground arith in
    let apart : (s : Str) → str_eq s j ≡ true → str_eq s id ≡ false =
      λ s named. ground (arith, str_eq_iff s j, str_eq_iff s id) in
    let ne : str_eq id j ≡ false = ground (arith, str_eq_iff id j, other) in
    rw e (
      select-remove_ne (bucket_is j) (bucket_is id) (λ x. apart x.id) db.buckets,
      select-remove_ne (object_in j) (object_in id) (λ x. apart x.bucket_id) db.objects,
      select-remove_ne (upload_in j) (upload_in id) (λ x. apart x.bucket_id) db.uploads,
      select-remove_ne (λ g. str_eq g.bucket_id j) (λ g. str_eq g.bucket_id id)
          (λ x. apart x.bucket_id) db.upload_grants,
      select-remove_ne (λ k. str_eq k.bucket_id j) (λ k. str_eq k.bucket_id id)
          (λ x. apart x.bucket_id) db.access_keys,
      select-remove_ne (λ c. str_eq c.bucket_id j) (λ c. str_eq c.bucket_id id)
          (λ x. apart x.bucket_id) db.confirmations,
      select-remove_ne (deletion_of j) (deletion_of id) (λ x. apart x.bucket_id)
          db.bucket_deletions,
      select-bury now id j db.tombstones ne,
      select-remove_ne (λ l. of_bucket j db l.object_id) (λ l. of_bucket id db l.object_id)
          (λ l. of_bucket_apart id j l.object_id db.objects ne (once l.object_id)) db.public_links,
      select-remove_ne (λ t. of_bucket j db t.object_id) (λ t. of_bucket id db t.object_id)
          (λ t. of_bucket_apart id j t.object_id db.objects ne (once t.object_id))
          db.transfer_tokens,
    )
