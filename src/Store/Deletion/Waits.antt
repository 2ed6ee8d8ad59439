-- ===== src/Store/Deletion/Waits.antt =====
-- BeginBucketDeletion: what it requires, and how long it makes the cleanup wait.
use rosemary_virsree.Prelude.{
  ℕ, ◌+◌, ◌≤◌, ◌<◌, ◌≡◌, ◌⊎◌, refl, inl, inr, Bool, true, false, not, ◌&&◌, some, List, [], ◌∷◌,
  arith, ltb, Bool-cases, Option-cases, if◌then◌else◌,
}
use rosemary_virsree.Prelude.Text.{Str, str_eq, str_eq_refl}
use rosemary_virsree.Prelude.Table.{find, any, update, count}
use rosemary_virsree.Prelude.Table.Rows.{count-remove_self}
use rosemary_virsree.Prelude.Results.{ok}
use rosemary_virsree.Model.{AccessKey, BucketDeletion, Confirmation, UploadGrant, Db}
use rosemary_virsree.Store.Columns.{deletion_of}
use rosemary_virsree.Store.Deletion.{minute, latest_grant, start_deletion, begin_bucket_deletion}

-- A grant of the bucket that is still good a minute before `after`.
abbrev pub outlives : Str → ℕ → UploadGrant → Bool
outlives id after g = str_eq g.bucket_id id && ltb after (g.expires_at + minute)

pub le-latest_grant :
    (id : Str) (grants : List UploadGrant) (after : ℕ) → after ≤ latest_grant id grants after
unfolding latest_grant
le-latest_grant id [] after = omega arith
le-latest_grant id (g ∷ grants) after = ground (
  arith,
  le-latest_grant id grants (
      if str_eq g.bucket_id id && ltb after (g.expires_at + minute)
      then g.expires_at + minute
      else after),
)

pub outlives-latest_grant :
    (id : Str) (grants : List UploadGrant) (after : ℕ)
    → count (outlives id (latest_grant id grants after)) grants ≡ 0
unfolding latest_grant count
outlives-latest_grant id [] after = refl
outlives-latest_grant id (g ∷ grants) after =
    let next : ℕ =
      if str_eq g.bucket_id id && ltb after (g.expires_at + minute)
      then g.expires_at + minute
      else after in
    ground (arith, outlives-latest_grant id grants next, le-latest_grant id grants next)

-- What a successful BeginBucketDeletion has found: the bucket is already being deleted and nothing
-- changes, or there is a confirmation with this token that is ready and has not expired.
pub begin_bucket_deletion-confirmed :
    (now : ℕ) (id hash : Str) (db db' : Db)
    → begin_bucket_deletion now id hash db ≡ ok db'
    → ((any (deletion_of id) db.bucket_deletions ≡ true) × (db' ≡ db))
      ⊎ ((c : Confirmation) × (find
              (λ c. str_eq c.bucket_id id && str_eq c.token_hash hash)
              db.confirmations
            ≡ some c)
          × (c.ready_at ≤ now)
          × (now < c.expires_at)
          × (db' ≡ start_deletion now id db))
unfolding begin_bucket_deletion
begin_bucket_deletion-confirmed now id hash db db' h =
    elim (Bool-cases (any (deletion_of id) db.bucket_deletions)) [
      | inl old ↦ inl (old, ground arith)
      | inr new ↦
          elim (Option-cases
            (find (λ c. str_eq c.bucket_id id && str_eq c.token_hash hash) db.confirmations)) [
              | inl missing ↦ absurd (ground arith)
              | inr (c, found) ↦ inr (c, found, ground arith, ground arith, ground arith)
            ]
    ]

revoked_all :
    (id : Str) (keys : List AccessKey)
    → count
        (λ k. str_eq k.bucket_id id && not k.revoked)
        (update (λ k. str_eq k.bucket_id id) (λ k. record k { revoked = true }) keys)
      ≡ 0
unfolding count update
revoked_all id [] = refl
revoked_all id (k ∷ keys) = ground (arith, revoked_all id keys)

-- Where BeginBucketDeletion records a deletion, it revokes every access key of the bucket, drops its
-- confirmations, and puts the cleanup off to now or later, and to a minute after the expiry of every
-- upload grant of the bucket.
pub begin_bucket_deletion-cuts_off :
    (now : ℕ) (id hash : Str) (db db' : Db)
    → any (deletion_of id) db.bucket_deletions ≡ false
    → begin_bucket_deletion now id hash db ≡ ok db'
    → (d : BucketDeletion) × (find (deletion_of id) db'.bucket_deletions ≡ some d)
      × (now ≤ d.cleanup_after)
      × (count (outlives id d.cleanup_after) db'.upload_grants ≡ 0)
      × (count (λ k. str_eq k.bucket_id id && not k.revoked) db'.access_keys ≡ 0)
      × (count (λ c. str_eq c.bucket_id id) db'.confirmations ≡ 0)
begin_bucket_deletion-cuts_off now id hash db db' new h =
    elim (begin_bucket_deletion-confirmed now id hash db db' h) [
      | inl (old, _) ↦ absurd (cc)
      | inr (c, found, ready, alive, e) ↦ rw e (
        record {
          bucket_id = id;
          requested_at = now;
          cleanup_after = latest_grant id db.upload_grants now;
          last_error_code = [];
        },
        unfold find in ground (arith, str_eq_refl id),
        le-latest_grant id db.upload_grants now,
        outlives-latest_grant id db.upload_grants now,
        revoked_all id db.access_keys,
        count-remove_self (λ c. str_eq c.bucket_id id) db.confirmations,
      )
    ]
