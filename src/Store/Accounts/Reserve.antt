-- ===== src/Store/Accounts/Reserve.antt =====
-- ReserveObject keeps the accounts.
use rosemary_virsree.Prelude.{
  ℕ, ◌+◌, ◌≡◌, ◌≢◌, refl, ◌⊎◌, inl, inr, true, false, ◌&&◌, Option, none, some, [], arith,
  Option-cases, if◌then◌else◌,
}
use rosemary_virsree.Prelude.Int.{ℤ, pos, ltb_ℤ, wrap64}
use rosemary_virsree.Prelude.Text.{str_eq, str_eq_iff}
use rosemary_virsree.Prelude.Table.{find, total, count}
use rosemary_virsree.Prelude.Table.Rows.{find-and_none}
use rosemary_virsree.Prelude.Table.Keyed.{count-insert}
use rosemary_virsree.Store.Accounts.Moves.{
  found-update_bucket, count-update_bucket, missing-update_bucket, found-update_source,
  missing-update_source, count-update_source,
}
use rosemary_virsree.Prelude.Results.{ok}
use rosemary_virsree.Model.{Bucket, Object, Upload, Db}
use rosemary_virsree.Store.Columns.{bucket_is, source_is, object_at, is_ready}
use rosemary_virsree.Store.Upload.{
  to_reserve, old_source, new_upload, upload_clashes, reserve_bucket, reserve_source, insert_upload,
  reserve_object,
}
use rosemary_virsree.Store.Accounts.{Consistent}

-- What a successful ReserveObject has found and written.
pub record Reserves (o : Object) (expires_at : ℕ) (db db' : Db) : Type 0 where
  pub bucket : Bucket
  pub found : find (bucket_is o.bucket_id) db.buckets ≡ some bucket
  pub old : Option Object
  pub replaced : find (λ x. object_at o.bucket_id o.logical_key x && is_ready x) db.objects ≡ old
  pub fits :
      (bucket.quota_unlimited ≡ true)
      ⊎ (ltb_ℤ bucket.quota_bytes
            (wrap64 (pos (bucket.used_bytes + bucket.reserved_bytes + to_reserve o.size old)))
          ≡ false)
  pub fresh : upload_clashes o db ≡ false
  pub sourced : o.source_id ≢ [] → find (source_is o.source_id) db.sources ≢ none
  pub writes :
      db'
      ≡ insert_upload o
          (to_reserve o.size old)
          (if str_eq (old_source old) o.source_id then to_reserve o.size old else o.size)
          expires_at
          db

pub reserve_object-Reserves :
    (o : Object) (expires_at : ℕ) (max_objects max_pending : ℤ) (db db' : Db)
    → reserve_object o expires_at max_objects max_pending db ≡ ok db'
    → Reserves o expires_at db db'
unfolding reserve_object
reserve_object-Reserves o e mo mp db db' h =
    elim (Option-cases (find (bucket_is o.bucket_id) db.buckets)) [
      | inl missing ↦ absurd (ground arith)
      | inr (b, found) ↦ record {
        bucket = b;
        found = found;
        old = find (λ x. object_at o.bucket_id o.logical_key x && is_ready x) db.objects;
        replaced = refl;
        fits = ground arith;
        fresh = ground arith;
        sourced = λ named missing. ground (
          arith,
          h,
          str_eq_iff o.source_id [],
          find-and_none (source_is o.source_id) (λ s. s.enabled) db.sources missing,
        );
        writes = ground arith;
      }
    ]

insert_upload-Consistent :
    (o : Object) (n m e : ℕ) (b : Bucket) (db : Db)
    → find (bucket_is o.bucket_id) db.buckets ≡ some b
    → upload_clashes o db ≡ false
    → (o.source_id ≢ [] → find (source_is o.source_id) db.sources ≢ none)
    → Consistent db
    → Consistent (insert_upload o n m e db)
insert_upload-Consistent o n m e b db found fresh sourced c = record {
  bucket_ids = λ i.
      rw (count-update_bucket (reserve_bucket n) (λ _. refl) o.bucket_id i db.buckets)
        (c.bucket_ids i);
  source_ids = λ i.
      rw (count-update_source (reserve_source m) (λ _. refl) o.source_id i db.sources)
        (c.source_ids i);
  object_ids = c.object_ids;
  object_keys = c.object_keys;
  upload_ids =
      λ i. count-insert Upload.id (new_upload o n m e) db.uploads (ground arith) i (c.upload_ids i);
  all_ready = c.all_ready;
  bucket_used = λ i b' h.
      let (b, h', e) =
        found-update_bucket (reserve_bucket n) (λ _. refl) o.bucket_id i db.buckets b' h in
      ground (arith, c.bucket_used i b h');
  bucket_reserved = λ i b' h.
      let (b, h', e) =
        found-update_bucket (reserve_bucket n) (λ _. refl) o.bucket_id i db.buckets b' h in
      unfold total in ground (arith, c.bucket_reserved i b h');
  source_used = λ i s' ne h.
      let (s, h', e) =
        found-update_source (reserve_source m) (λ _. refl) o.source_id i db.sources s' ne h in
      ground (arith, c.source_used i s ne h');
  source_reserved = λ i s' ne h.
      let (s, h', e) =
        found-update_source (reserve_source m) (λ _. refl) o.source_id i db.sources s' ne h in
      unfold total in ground (arith, c.source_reserved i s ne h');
  objects_housed = λ i h.
      c.objects_housed i
        (missing-update_bucket (reserve_bucket n) (λ _. refl) o.bucket_id i db.buckets h);
  uploads_housed = λ i h.
      let h' = missing-update_bucket (reserve_bucket n) (λ _. refl) o.bucket_id i db.buckets h in
      unfold count in ground (arith, c.uploads_housed i h', str_eq_iff o.bucket_id i);
  objects_sourced = λ i ne h.
      c.objects_sourced i ne
        (missing-update_source (reserve_source m) (λ _. refl) o.source_id i db.sources h);
  uploads_sourced = λ i ne h.
      let h' = missing-update_source (reserve_source m) (λ _. refl) o.source_id i db.sources h in
      unfold count in ground (arith, c.uploads_sourced i ne h', str_eq_iff o.source_id i, sourced);
}

-- A successful ReserveObject keeps the accounts.
pub reserve_object-Consistent :
    (o : Object) (expires_at : ℕ) (max_objects max_pending : ℤ) (db db' : Db)
    → Consistent db
    → reserve_object o expires_at max_objects max_pending db ≡ ok db'
    → Consistent db'
reserve_object-Consistent o e mo mp db db' c h =
    let r = reserve_object-Reserves o e mo mp db db' h in
    rw r.writes (insert_upload-Consistent o _ _ e r.bucket db r.found r.fresh r.sourced c)
