-- ===== src/Store/Quota/Reserve.antt =====
-- ReserveObject against the quota of the bucket and the capacity of the source.
use rosemary_virsree.Prelude.{
  ℕ, ◌+◌, ◌≤◌, ◌<◌, ◌≡◌, ◌≢◌, refl, inl, inr, false, ◌&&◌, Option, some, [], arith, if◌then◌else◌,
  Option-cases,
}
use rosemary_virsree.Prelude.Int.{ℤ, pos, ◌≤ℤ◌, leb_ℤ, wrap64-pos, wrap64_negative, two_63, two_64}
use rosemary_virsree.Prelude.Text.{str_eq, str_eq_iff, str_eq_refl}
use rosemary_virsree.Prelude.Table.{find, any, count}
use rosemary_virsree.Prelude.Table.Keyed.{key-find}
use rosemary_virsree.Prelude.Table.Rows.{find-update, find-holds}
use rosemary_virsree.Prelude.Results.{ok}
use rosemary_virsree.Model.{Bucket, StorageSource, Object, Db}
use rosemary_virsree.Store.Columns.{
  bucket_is, source_is, deletion_of, object_at, is_ready, object_in, upload_in,
}
use rosemary_virsree.Store.Upload.{
  to_reserve, old_source, upload_clashes, insert_upload, reserve_bucket, reserve_source,
  reserve_object,
}
use rosemary_virsree.Store.Accounts.Reserve.{reserve_object-Reserves}

-- The object that an upload of `o` would replace.
abbrev pub replaced : Object → Db → Option Object
replaced o db = find (λ x. object_at o.bucket_id o.logical_key x && is_ready x) db.objects

-- The bytes of quota that the upload asks for.
abbrev pub wanted : Object → Db → ℕ
wanted o db = to_reserve o.size (replaced o db)

-- The bytes of capacity that it asks for.
abbrev pub source_wanted : Object → Db → ℕ
source_wanted o db = if str_eq (old_source (replaced o db)) o.source_id then wanted o db else o.size

source_wanted-le : (o : Object) (db : Db) → source_wanted o db ≤ o.size
source_wanted-le o db = ground arith

-- Where the sum of the counters and the request fits an int64, a reservation that succeeds leaves a
-- bucket with a quota at or below it: its used and reserved bytes with the new reservation are at
-- most the quota, and the row of the bucket is changed in its reserved bytes alone.
pub reserve_object-within_quota :
    (o : Object) (expires : ℕ) (objects uploads : ℤ) (db db' : Db) (b : Bucket)
    → find (bucket_is o.bucket_id) db.buckets ≡ some b
    → b.quota_unlimited ≡ false
    → b.used_bytes + b.reserved_bytes + wanted o db < two_63
    → reserve_object o expires objects uploads db ≡ ok db'
    → (find (bucket_is o.bucket_id) db'.buckets
        ≡ some (record b { reserved_bytes = b.reserved_bytes + wanted o db }))
      × (pos (b.used_bytes + (b.reserved_bytes + wanted o db)) ≤ℤ b.quota_bytes)
reserve_object-within_quota o expires objects uploads db db' b found limited small h =
    let r = reserve_object-Reserves o expires objects uploads db db' h in
    let after =
      find-update (bucket_is o.bucket_id) (bucket_is o.bucket_id) (reserve_bucket (wanted o db))
        (λ _. refl) db.buckets in
    (
      rw r.writes (
          ground (
            arith,
            after,
            r.replaced,
            key-find Bucket.id o.bucket_id db.buckets b found,
            str_eq_refl o.bucket_id,
          )),
      ground (
        arith,
        r.found,
        r.fits,
        r.replaced,
        wrap64-pos (b.used_bytes + b.reserved_bytes + wanted o db) small,
      ),
    )

-- The capacity test of a reservation that succeeds.
capacity_tested :
    (o : Object) (expires : ℕ) (objects uploads : ℤ) (db db' : Db) (s : StorageSource)
    → o.source_id ≢ []
    → find (λ s. source_is o.source_id s && s.enabled) db.sources ≡ some s
    → s.capacity_unlimited ≡ false
    → s.used_bytes + s.reserved_bytes + o.size < two_63
    → reserve_object o expires objects uploads db ≡ ok db'
    → pos (s.used_bytes + (s.reserved_bytes + source_wanted o db)) ≤ℤ s.capacity_bytes
unfolding reserve_object
capacity_tested o expires objects uploads db db' s named found limited small h =
    elim (Option-cases (find (bucket_is o.bucket_id) db.buckets)) [
      | inl missing ↦ absurd (ground arith)
      | inr (b, home) ↦
          let le = source_wanted-le o db in
          let w = wrap64-pos (s.used_bytes + s.reserved_bytes + source_wanted o db) (omega arith) in
          ground (arith, str_eq_iff o.source_id [])
    ]

-- Where the source's counters with the size fit an int64, a reservation that succeeds on an enabled
-- source with a capacity, other than the legacy one, leaves the source at or below it: its row is
-- changed in its reserved bytes alone, which grow by the bytes that the upload asks of the source,
-- and its used and reserved bytes are then at most the capacity.
pub reserve_object-within_capacity :
    (o : Object) (expires : ℕ) (objects uploads : ℤ) (db db' : Db) (s : StorageSource)
    → o.source_id ≢ []
    → find (λ s. source_is o.source_id s && s.enabled) db.sources ≡ some s
    → s.capacity_unlimited ≡ false
    → s.used_bytes + s.reserved_bytes + o.size < two_63
    → reserve_object o expires objects uploads db ≡ ok db'
    → (find (λ s. source_is o.source_id s && s.enabled) db'.sources
        ≡ some (record s { reserved_bytes = s.reserved_bytes + source_wanted o db }))
      × (pos (s.used_bytes + (s.reserved_bytes + source_wanted o db)) ≤ℤ s.capacity_bytes)
reserve_object-within_capacity o expires objects uploads db db' s named found limited small h =
    let r = reserve_object-Reserves o expires objects uploads db db' h in
    let after =
      find-update (λ v. source_is o.source_id v && v.enabled) (source_is o.source_id)
        (reserve_source (source_wanted o db)) (λ _. refl) db.sources in
    let holds = find-holds (λ v. source_is o.source_id v && v.enabled) db.sources s found in
    (
      rw r.writes
          (ground (arith, after, found, holds, r.replaced, named, str_eq_iff o.source_id [])),
      capacity_tested o expires objects uploads db db' s named found limited small h,
    )

-- A sum in [2^63, 2^64) wraps to a negative int64, so no quota stops the request: an upload to the
-- legacy source that passes the other tests is reserved, however small the quota of the bucket.
pub reserve_object-overflow :
    (o : Object) (expires : ℕ) (objects uploads : ℤ) (quota : ℕ) (db : Db) (b : Bucket)
    → find (bucket_is o.bucket_id) db.buckets ≡ some b
    → b.quota_bytes ≡ pos quota
    → two_63 ≤ b.used_bytes + b.reserved_bytes + wanted o db
    → b.used_bytes + b.reserved_bytes + wanted o db < two_64
    → any (deletion_of o.bucket_id) db.bucket_deletions ≡ false
    → leb_ℤ uploads (pos (count (upload_in o.bucket_id) db.uploads)) ≡ false
    → leb_ℤ objects (pos (count (λ x. object_in o.bucket_id x && is_ready x) db.objects)) ≡ false
    → o.source_id ≡ []
    → upload_clashes o db ≡ false
    → (db' : Db) × (reserve_object o expires objects uploads db ≡ ok db')
unfolding reserve_object
reserve_object-overflow o expires objects uploads quota db b found limit big small active few room
      legacy fresh =
    let w = wrap64_negative (b.used_bytes + b.reserved_bytes + wanted o db) big small in
    (
      insert_upload o (wanted o db)
          (if str_eq (old_source (replaced o db)) o.source_id then wanted o db else o.size) expires
          db,
      ground (arith, w, str_eq_iff o.source_id []),
    )
