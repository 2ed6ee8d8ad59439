-- ===== src/Store/Steps/Bootstrap.antt =====
-- A bootstrap token is claimed at most once, whatever happens between two claims.
use rosemary_virsree.Prelude.{
  ℕ, ◌≤◌, ◌≡◌, refl, Bool, true, false, not, ◌&&◌, none, some, List, [], ◌∷◌, arith, Option-cases,
  inl, inr,
}
use rosemary_virsree.Prelude.Text.{Str, str_eq, str_eq_iff, str_eq_refl}
use rosemary_virsree.Prelude.Table.{find, any, update}
use rosemary_virsree.Prelude.Table.Rows.{find-update, count-any-false, find-count_zero}
use rosemary_virsree.Prelude.Results.{Result, ok, err, ok-bind, token_unusable}
use rosemary_virsree.Model.{BootstrapToken, Db}
use rosemary_virsree.Store.Upload.{reserve_object, get_upload}
use rosemary_virsree.Store.Commit.{commit_upload, cancel_upload, delete_object}
use rosemary_virsree.Store.Buckets.{create_bucket, update_bucket}
use rosemary_virsree.Store.Keys.{
  create_access_key, revoke_key, is_used, mark_used, create_bootstrap, claim_bootstrap,
}
use rosemary_virsree.Store.Sources.{
  create_storage_source, update_storage_source, rotate_physical_key, set_upload_transfer_hash,
  create_download_token,
}
use rosemary_virsree.Store.Links.{create_public_link, revoke_public_link}
use rosemary_virsree.Store.Deletion.{
  begin_bucket_deletion, prepare_bucket_deletion, finish_bucket_deletion, prune_upload_grants,
  forget_upload_grant, bucket_deletion_error, update_bucket_cleanup_tombstone,
}
use rosemary_virsree.Store.Steps.{Op, apply, settled, run}

abbrev with_hash : Str → BootstrapToken → Bool
with_hash hash t = str_eq t.token_hash hash

-- The token is in the table and has been used.
abbrev Spent : Str → Db → Type 0
Spent hash db =
    (t : BootstrapToken) × (find (with_hash hash) db.bootstrap_tokens ≡ some t) × (is_used t ≡ true)

-- A successful ClaimBootstrap has found the token unused and in time, and leaves it used.
pub claim_bootstrap_lem :
    (now : ℕ) (hash : Str) (db : Db) (r : BootstrapToken × Db)
    → claim_bootstrap now hash db ≡ ok r
    → (t : BootstrapToken) × (find (λ t. str_eq t.token_hash hash) db.bootstrap_tokens ≡ some t)
      × (t.used_at ≡ none)
      × (now ≤ t.expires_at)
      × (find (λ t. str_eq t.token_hash hash) r.1.bootstrap_tokens
          ≡ some (record t { used_at = some now }))
unfolding claim_bootstrap
claim_bootstrap_lem now hash db r h =
    elim (Option-cases (find (with_hash hash) db.bootstrap_tokens)) [
      | inl missing ↦ absurd (ground arith)
      | inr (t, found) ↦
          let e : r.1.bootstrap_tokens
              ≡ update (λ x. str_eq x.id t.id && not (is_used x)) (mark_used now)
                  db.bootstrap_tokens =
            ground arith in
          let after =
            find-update (with_hash hash) (λ x. str_eq x.id t.id && not (is_used x)) (mark_used now)
              (λ _. refl) db.bootstrap_tokens in
          (t, found, ground arith, ground arith, rw e (ground (arith, after, str_eq_refl t.id)))
    ]

same :
    (hash : Str) (db db' : Db)
    → db'.bootstrap_tokens ≡ db.bootstrap_tokens
    → Spent hash db
    → Spent hash db'
same hash db db' e (t, found, used) = (t, rw e found, used)

create-Spent :
    (hash : Str) (t : BootstrapToken) (db db' : Db)
    → create_bootstrap t db ≡ ok db'
    → Spent hash db
    → Spent hash db'
unfolding create_bootstrap
create-Spent hash t db db' h (s, found, used) =
    let e : db'.bootstrap_tokens ≡ record t { used_at = none } ∷ db.bootstrap_tokens =
      ground arith in
    let free : any (λ r. str_eq r.token_hash t.token_hash) db.bootstrap_tokens ≡ false =
      ground arith in
    let absent =
      find-count_zero (with_hash t.token_hash) db.bootstrap_tokens
        (count-any-false (with_hash t.token_hash) db.bootstrap_tokens free) in
    (s, rw e (unfold find in ground (arith, str_eq_iff t.token_hash hash)), used)

claim-Spent :
    (now : ℕ) (hash other : Str) (db : Db) (r : BootstrapToken × Db)
    → claim_bootstrap now other db ≡ ok r
    → Spent hash db
    → Spent hash r.1
unfolding claim_bootstrap
claim-Spent now hash other db r h (s, found, used) =
    elim (Option-cases (find (with_hash other) db.bootstrap_tokens)) [
      | inl missing ↦ absurd (ground arith)
      | inr (t, claimed) ↦
          let e : r.1.bootstrap_tokens
              ≡ update (λ x. str_eq x.id t.id && not (is_used x)) (mark_used now)
                  db.bootstrap_tokens =
            ground arith in
          let after =
            find-update (with_hash hash) (λ x. str_eq x.id t.id && not (is_used x)) (mark_used now)
              (λ _. refl) db.bootstrap_tokens in
          (s, rw e (ground (arith, after)), used)
    ]

apply-Spent :
    (now : ℕ) (hash : Str) (op : Op) (db db' : Db)
    → apply now op db ≡ ok db'
    → Spent hash db
    → Spent hash db'
unfolding apply
apply-Spent now hash (Op.new_bootstrap t) db db' h s = create-Spent hash t db db' h s
apply-Spent now hash (Op.claim other) db db' h s =
    let (r, e', e) = ok-bind (λ r. ok r.1) (claim_bootstrap now other db) h in
    let e'' : r.1 ≡ db' = cc in rw (← e'') (claim-Spent now hash other db r e s)
apply-Spent now hash (Op.new_bucket b limit unlimited) db db' h s =
    same hash db db' (unfold create_bucket in ground arith) s
apply-Spent now hash (Op.resize_bucket slug name visibility quota unlimited limit platform) db db' h
      s =
    same hash db db' (unfold update_bucket in ground arith) s
apply-Spent now hash (Op.new_key k) db db' h s =
    same hash db db' (unfold create_access_key in ground arith) s
apply-Spent now hash (Op.revoke id) db db' h s =
    same hash db db' (unfold revoke_key in ground arith) s
apply-Spent now hash (Op.new_source v) db db' h s =
    same hash db db' (unfold create_storage_source in ground arith) s
apply-Spent now hash (Op.change_source v) db db' h s =
    same hash db db' (unfold update_storage_source in ground arith) s
apply-Spent now hash (Op.reserve o expires objects uploads) db db' h s =
    same hash db db' (unfold reserve_object in ground arith) s
apply-Spent now hash (Op.hash_upload id x) db db' h s =
    same hash db db' (unfold set_upload_transfer_hash in ground arith) s
apply-Spent now hash (Op.commit bucket id key physical etag actual) db db' h s =
    same hash db db' (unfold get_upload commit_upload in ground arith) s
apply-Spent now hash (Op.cancel id) db db' h s =
    same hash db db' (unfold cancel_upload in ground arith) s
apply-Spent now hash (Op.delete id) db db' h s =
    same hash db db' (unfold delete_object in ground arith) s
apply-Spent now hash (Op.rotate id physical generation) db db' h s =
    same hash db db' (unfold rotate_physical_key in ground arith) s
apply-Spent now hash (Op.new_link id object slug ttl expires) db db' h s =
    same hash db db' (unfold create_public_link in ground arith) s
apply-Spent now hash (Op.revoke_link bucket slug) db db' h s =
    same hash db db' (unfold revoke_public_link in ground arith) s
apply-Spent now hash (Op.new_token x object expires) db db' h s =
    same hash db db' (unfold create_download_token in ground arith) s
apply-Spent now hash (Op.prepare_deletion id x ready expires) db db' h s =
    same hash db db' (unfold prepare_bucket_deletion in ground arith) s
apply-Spent now hash (Op.begin_deletion id x) db db' h s =
    same hash db db' (unfold begin_bucket_deletion in ground arith) s
apply-Spent now hash (Op.finish_deletion id) db db' h s =
    same hash db db' (unfold finish_bucket_deletion in ground arith) s
apply-Spent now hash (Op.deletion_error id code) db db' h s =
    same hash db db' (unfold bucket_deletion_error in ground arith) s
apply-Spent now hash (Op.sweep_tombstone id finished) db db' h s =
    same hash db db' (unfold update_bucket_cleanup_tombstone in ground arith) s
apply-Spent now hash Op.prune_grants db db' h s =
    same hash db db' (unfold prune_upload_grants in ground arith) s
apply-Spent now hash (Op.forget_grant id) db db' h s =
    same hash db db' (unfold forget_upload_grant in ground arith) s

settled-Spent :
    (hash : Str) (db : Db) (r : Result Db)
    → ((db' : Db) → r ≡ ok db' → Spent hash db')
    → Spent hash db
    → Spent hash (settled db r)
settled-Spent hash db (ok db') keep s = keep db' refl
settled-Spent hash db (err e) keep s = s

run-Spent : (hash : Str) (ops : List (ℕ × Op)) (db : Db) → Spent hash db → Spent hash (run ops db)
unfolding run
run-Spent hash [] db s = s
run-Spent hash ((now, op) ∷ ops) db s =
    run-Spent hash ops (settled db (apply now op db))
      (settled-Spent hash db (apply now op db) (λ db' h. apply-Spent now hash op db db' h s) s)

-- After a successful ClaimBootstrap, and any history of transactions after it, a claim of the same
-- token at any time is refused as expired or already used.
pub claim_bootstrap-once :
    (now later : ℕ) (hash : Str) (db : Db) (r : BootstrapToken × Db) (ops : List (ℕ × Op))
    → claim_bootstrap now hash db ≡ ok r
    → claim_bootstrap later hash (run ops r.1) ≡ err token_unusable
claim_bootstrap-once now later hash db r ops h =
    let (t, _, _, _, after) = claim_bootstrap_lem now hash db r h in
    let (s, found, used) = run-Spent hash ops r.1 (record t { used_at = some now }, after, refl) in
    unfold claim_bootstrap in ground arith
