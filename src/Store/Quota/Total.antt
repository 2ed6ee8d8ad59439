-- ===== src/Store/Quota/Total.antt =====
-- CreateBucket and UpdateBucket against the total quota.
use rosemary_virsree.Prelude.{
  ◌≤◌, ◌<◌, ◌≡◌, refl, inl, inr, Bool, true, false, not, List, [], ◌∷◌, arith, Option-cases,
  Bool-cases,
}
use rosemary_virsree.Prelude.Int.{
  ℤ, pos, pos_part, neg_part, ◌+ℤ◌, ◌≤ℤ◌, ltb_ℤ, wrap64_exact, two_63, +ℤ_comm, +ℤ_assoc, +ℤ_parts,
  zero_+ℤ,
}
use rosemary_virsree.Prelude.Text.{Str, str_eq, str_eq_refl}
use rosemary_virsree.Prelude.Table.{find, update, count}
use rosemary_virsree.Prelude.Table.Rows.{update-count_zero, count-find-some}
use rosemary_virsree.Prelude.Results.{ok}
use rosemary_virsree.Model.{Bucket, Db}
use rosemary_virsree.Store.Columns.{bucket_is}
use rosemary_virsree.Store.Buckets.{allocated, new_row, resize, create_bucket, update_bucket}

abbrev pub allocated_all : List Bucket → ℤ
allocated_all = allocated (λ _. true)

allocated_limited :
    (b : Bucket) (bs : List Bucket)
    → b.quota_unlimited ≡ false
    → allocated_all (b ∷ bs) ≡ b.quota_bytes +ℤ allocated_all bs
unfolding allocated
allocated_limited b bs limited = ground arith

-- A new bucket with a quota fits the total: where the sum with its quota is an int64, the quotas of
-- all limited buckets add up to at most the limit afterwards.
pub create_bucket-within_total :
    (b : Bucket) (limit : ℤ) (unlimited : Bool) (db db' : Db)
    → b.quota_unlimited ≡ false
    → pos_part (allocated_all db.buckets +ℤ b.quota_bytes) < two_63
    → create_bucket b limit unlimited db ≡ ok db'
    → allocated_all db'.buckets ≤ℤ limit
unfolding create_bucket
create_bucket-within_total b limit unlimited db db' limited small h =
    let low : neg_part (allocated_all db.buckets +ℤ b.quota_bytes) ≤ two_63 =
      ground (arith, +ℤ_parts (allocated_all db.buckets) b.quota_bytes) in
    let exact = wrap64_exact (allocated_all db.buckets +ℤ b.quota_bytes) small low in
    let e : db'.buckets ≡ new_row b ∷ db.buckets = ground arith in
    let fits : ltb_ℤ limit (allocated_all db.buckets +ℤ b.quota_bytes) ≡ false = ground arith in
    rw e (
      rw
        (
          allocated_limited (new_row b) db.buckets limited,
          +ℤ_comm b.quota_bytes (allocated_all db.buckets),
        )
        (ground arith))

allocated_elsewhere :
    (id : Str) (bs : List Bucket)
    → count (bucket_is id) bs ≡ 0
    → allocated (λ r. not (str_eq r.id id)) bs ≡ allocated_all bs
unfolding allocated count
allocated_elsewhere id [] h = refl
allocated_elsewhere id (x ∷ bs) h = ground (arith, allocated_elsewhere id bs)

-- What UpdateBucket changes of the sum: the bucket's own quota.
allocated_others :
    (id name visibility : Str) (quota : ℤ) (bs : List Bucket)
    → count (bucket_is id) bs ≡ 1
    → allocated_all (update (bucket_is id) (resize name visibility quota false) bs)
      ≡ allocated (λ r. not (str_eq r.id id)) bs +ℤ quota
unfolding count update allocated
allocated_others id name visibility quota [] u = ground arith
allocated_others id name visibility quota (x ∷ bs) u = elim (Bool-cases (str_eq x.id id)) [
  | inl this ↦
      let rest : count (bucket_is id) bs ≡ 0 = ground arith in
      ground (
        arith,
        update-count_zero (bucket_is id) (resize name visibility quota false) bs rest,
        allocated_elsewhere id bs rest,
        zero_+ℤ (allocated_all bs),
        +ℤ_comm quota (allocated_all bs),
      )
  | inr other ↦
      let rest : count (bucket_is id) bs ≡ 1 = ground arith in
      ground (
        arith,
        allocated_others id name visibility quota bs rest,
        +ℤ_assoc x.quota_bytes (allocated (λ r. not (str_eq r.id id)) bs) quota,
        +ℤ_assoc (pos 0) (allocated (λ r. not (str_eq r.id id)) bs) quota,
      )
]

-- Where the bucket's id is unique and the sum of the other quotas with the new one is an int64, an
-- UpdateBucket to a quota that succeeds leaves the quotas of all limited buckets within the limit.
pub update_bucket-within_total :
    (slug name visibility : Str) (quota limit : ℤ) (platform : Bool) (db : Db) (r : Bucket × Db)
    → count (bucket_is r.0.id) db.buckets ≤ 1
    → pos_part (allocated (λ x. not (str_eq x.id r.0.id)) db.buckets +ℤ quota) < two_63
    → update_bucket slug name visibility quota false limit platform db ≡ ok r
    → allocated_all r.1.buckets ≤ℤ limit
unfolding update_bucket
update_bucket-within_total slug name visibility quota limit platform db r unique small h =
    elim (Option-cases (find (λ b. str_eq b.slug slug) db.buckets)) [
      | inl missing ↦ absurd (ground arith)
      | inr (b, found) ↦
          let named : r.0.id ≡ b.id = ground arith in
          let others = allocated (λ x. not (str_eq x.id b.id)) db.buckets in
          let unique' : count (bucket_is b.id) db.buckets ≤ 1 = simp (← named) unique in
          let one : count (bucket_is b.id) db.buckets ≡ 1 = omega (
            arith,
            unique',
            count-find-some (λ b. str_eq b.slug slug) (bucket_is b.id) db.buckets b found
                (str_eq_refl b.id),
          ) in
          let small' : pos_part (others +ℤ quota) < two_63 = simp (← named) small in
          let low : neg_part (others +ℤ quota) ≤ two_63 = ground (arith, +ℤ_parts others quota) in
          let exact = wrap64_exact (others +ℤ quota) small' low in
          let e : r.1.buckets
              ≡ update (bucket_is b.id) (resize name visibility quota false) db.buckets =
            ground arith in
          let fits : ltb_ℤ limit (others +ℤ quota) ≡ false = ground arith in
          rw e (rw (allocated_others b.id name visibility quota db.buckets one) (ground arith))
    ]
