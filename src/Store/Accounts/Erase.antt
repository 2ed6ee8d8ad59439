-- ===== src/Store/Accounts/Erase.antt =====
-- FinishBucketDeletion keeps the accounts.
use rosemary_virsree.Prelude.{
  ℕ, ◌≡◌, ◌≢◌, refl, inl, inr, true, false, not, none, some, [], arith, Option-cases, Bool-cases,
}
use rosemary_virsree.Prelude.Text.{Str, str_eq, str_eq_iff}
use rosemary_virsree.Prelude.Table.{find, remove, update, total, count}
use rosemary_virsree.Prelude.Table.Rows.{
  count-remove-le, count-remove_self, find-remove_self, find-remove_ne, find-update, count-update,
}
use rosemary_virsree.Prelude.Table.Keyed.{key-find}
use rosemary_virsree.Prelude.Table.Sums.{total-disjoint, total-remove_ready, total-remove_all}
use rosemary_virsree.Prelude.Results.{ok}
use rosemary_virsree.Model.{Bucket, StorageSource, Object, Upload, Db}
use rosemary_virsree.Store.Columns.{
  bucket_is, source_is, upload_is, object_is, object_at, is_ready, object_in, object_on, upload_in,
  upload_on,
}
use rosemary_virsree.Store.Deletion.{release_share, erase_bucket, finish_bucket_deletion}
use rosemary_virsree.Store.Accounts.{Consistent}

module _ (now : ℕ) (id : Str) (db : Db) (c : Consistent db) where
  -- A bucket that is found after the deletion is another one, and was found before.
  found_bucket :
      (i : Str) (b : Bucket)
      → find (bucket_is i) (remove (bucket_is id) db.buckets) ≡ some b
      → (str_eq id i ≡ false) × (find (bucket_is i) db.buckets ≡ some b)
  found_bucket i b h = elim (Bool-cases (str_eq id i)) [
    | inl same ↦
        absurd (ground (arith, find-remove_self (bucket_is id) db.buckets, str_eq_iff id i, h))
    | inr other ↦ (
      other,
      ground (
        arith,
        find-remove_ne (bucket_is i) (bucket_is id)
            (λ x e. ground (arith, str_eq_iff x.id i, str_eq_iff x.id id, str_eq_iff id i))
            db.buckets,
      ),
    )
  ]

  found_source :
      (i : Str) (s' : StorageSource)
      → find (source_is i) (update (λ _. true) (release_share id db) db.sources) ≡ some s'
      → (s : StorageSource) × (find (source_is i) db.sources ≡ some s)
        × (s.id ≡ i)
        × (s' ≡ release_share id db s)
  found_source i s' h =
      let after =
        find-update (source_is i) (λ _. true) (release_share id db) (λ _. refl) db.sources in
      elim (Option-cases (find (source_is i) db.sources)) [
        | inl missing ↦ absurd (cc)
        | inr (s, e) ↦ (s, e, key-find StorageSource.id i db.sources s e, ground arith)
      ]

  source_used-erase :
      (i : Str) (s' : StorageSource)
      → i ≢ []
      → find (source_is i) (erase_bucket now id db).sources ≡ some s'
      → s'.used_bytes ≡ total (object_on i) Object.size (remove (object_in id) db.objects)
  source_used-erase i s' ne h =
      let (s, e, named, e') = found_source i s' h in
      let sum =
        total-remove_ready (object_on s.id) Object.size (object_in id) is_ready db.objects
          c.all_ready in
      let used = c.source_used s.id s (rw named ne) (rw named e) in rw (← named) (ground arith)

  source_reserved-erase :
      (i : Str) (s' : StorageSource)
      → i ≢ []
      → find (source_is i) (erase_bucket now id db).sources ≡ some s'
      → s'.reserved_bytes
        ≡ total (upload_on i) Upload.source_reserved_bytes (remove (upload_in id) db.uploads)
  source_reserved-erase i s' ne h =
      let (s, e, named, e') = found_source i s' h in
      let sum =
        total-remove_all (upload_on s.id) Upload.source_reserved_bytes (upload_in id) db.uploads in
      let reserved = c.source_reserved s.id s (rw named ne) (rw named e) in
      rw (← named) (ground arith)

  bucket_used-erase :
      (i : Str) (b : Bucket)
      → find (bucket_is i) (remove (bucket_is id) db.buckets) ≡ some b
      → b.used_bytes ≡ total (object_in i) Object.size (remove (object_in id) db.objects)
  bucket_used-erase i b h =
      let (other, e) = found_bucket i b h in
      rw
        (total-disjoint (object_in i) Object.size (object_in id)
          (λ x p.
            ground (arith, str_eq_iff x.bucket_id i, str_eq_iff x.bucket_id id, str_eq_iff id i))
          db.objects)
        (c.bucket_used i b e)

  bucket_reserved-erase :
      (i : Str) (b : Bucket)
      → find (bucket_is i) (remove (bucket_is id) db.buckets) ≡ some b
      → b.reserved_bytes
        ≡ total (upload_in i) Upload.reserved_bytes (remove (upload_in id) db.uploads)
  bucket_reserved-erase i b h =
      let (other, e) = found_bucket i b h in
      rw
        (total-disjoint (upload_in i) Upload.reserved_bytes (upload_in id)
          (λ x p.
            ground (arith, str_eq_iff x.bucket_id i, str_eq_iff x.bucket_id id, str_eq_iff id i))
          db.uploads)
        (c.bucket_reserved i b e)

  -- A bucket that is missing after the deletion was missing before, or is the deleted one.
  missing_bucket :
      (i : Str)
      → find (bucket_is i) (remove (bucket_is id) db.buckets) ≡ none
      → str_eq id i ≡ false
      → find (bucket_is i) db.buckets ≡ none
  missing_bucket i h other = ground (
    arith,
    find-remove_ne (bucket_is i) (bucket_is id)
        (λ x e. ground (arith, str_eq_iff x.id i, str_eq_iff x.id id, str_eq_iff id i)) db.buckets,
  )

  objects_housed-erase :
      (i : Str)
      → find (bucket_is i) (remove (bucket_is id) db.buckets) ≡ none
      → count (object_in i) (remove (object_in id) db.objects) ≡ 0
  objects_housed-erase i h = elim (Bool-cases (str_eq id i)) [
    | inl same ↦ rw ((str_eq_iff id i).0 same) (count-remove_self (object_in i) db.objects)
    | inr other ↦ omega (
      arith,
      c.objects_housed i (missing_bucket i h other),
      count-remove-le (object_in i) (object_in id) db.objects,
    )
  ]

  uploads_housed-erase :
      (i : Str)
      → find (bucket_is i) (remove (bucket_is id) db.buckets) ≡ none
      → count (upload_in i) (remove (upload_in id) db.uploads) ≡ 0
  uploads_housed-erase i h = elim (Bool-cases (str_eq id i)) [
    | inl same ↦ rw ((str_eq_iff id i).0 same) (count-remove_self (upload_in i) db.uploads)
    | inr other ↦ omega (
      arith,
      c.uploads_housed i (missing_bucket i h other),
      count-remove-le (upload_in i) (upload_in id) db.uploads,
    )
  ]

  missing_source :
      (i : Str)
      → find (source_is i) (erase_bucket now id db).sources ≡ none
      → find (source_is i) db.sources ≡ none
  missing_source i h =
      ground
        (arith, find-update (source_is i) (λ _. true) (release_share id db) (λ _. refl) db.sources)

  erase_bucket-Consistent : Consistent (erase_bucket now id db)
  erase_bucket-Consistent = record {
    bucket_ids =
        λ i. omega (arith, c.bucket_ids i, count-remove-le (bucket_is i) (bucket_is id) db.buckets);
    source_ids = λ i.
        rw (count-update (source_is i) (λ _. true) (release_share id db) (λ _. refl) db.sources)
          (c.source_ids i);
    object_ids =
        λ i. omega (arith, c.object_ids i, count-remove-le (object_is i) (object_in id) db.objects);
    object_keys = λ i k.
        omega (arith, c.object_keys i k, count-remove-le (object_at i k) (object_in id) db.objects);
    upload_ids =
        λ i. omega (arith, c.upload_ids i, count-remove-le (upload_is i) (upload_in id) db.uploads);
    all_ready =
        omega
          (arith, c.all_ready, count-remove-le (λ x. not (is_ready x)) (object_in id) db.objects);
    bucket_used = bucket_used-erase;
    bucket_reserved = bucket_reserved-erase;
    source_used = source_used-erase;
    source_reserved = source_reserved-erase;
    objects_housed = objects_housed-erase;
    uploads_housed = uploads_housed-erase;
    objects_sourced = λ i ne h. omega (
      arith,
      c.objects_sourced i ne (missing_source i h),
      count-remove-le (object_on i) (object_in id) db.objects,
    );
    uploads_sourced = λ i ne h. omega (
      arith,
      c.uploads_sourced i ne (missing_source i h),
      count-remove-le (upload_on i) (upload_in id) db.uploads,
    );
  }

-- A successful FinishBucketDeletion keeps the accounts: each source gives back exactly the bytes
-- that the bucket held and had reserved on it.
pub finish_bucket_deletion-Consistent :
    (now : ℕ) (id : Str) (db db' : Db)
    → Consistent db
    → finish_bucket_deletion now id db ≡ ok db'
    → Consistent db'
unfolding finish_bucket_deletion
finish_bucket_deletion-Consistent now id db db' c h =
    let e : db' ≡ erase_bucket now id db = ground arith in
    rw e (erase_bucket-Consistent now id db c)
