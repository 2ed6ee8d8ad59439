-- ===== src/Store/Buckets.antt =====
-- internal/store/store.go: GetBucket, CreateBucket, UpdateBucket.
use rosemary_virsree.Prelude.{
  ◌+◌, Bool, true, false, not, ◌&&◌, ◌||◌, List, [], ◌∷◌, leb, ltb, if◌then◌else◌,
}
use rosemary_virsree.Prelude.Int.{ℤ, pos, ◌+ℤ◌, pos_part, neg_part, ltb_ℤ, leb_ℤ, wrap64, two_63}
use rosemary_virsree.Prelude.Text.{Str, str_eq}
use rosemary_virsree.Prelude.Table.{find, any, update}
use rosemary_virsree.Prelude.Results.{
  Result, ok, ◌>>=◌, ◌>>◌, fail_if, scan, not_found, constraint, bucket_deleting,
  unlimited_not_allowed, quota_not_positive, total_quota, quota_below_usage, sum_overflow,
}
use rosemary_virsree.Model.{Bucket, Db}
use rosemary_virsree.Store.Columns.{bucket_is, deletion_of}

-- COALESCE(sum(quota_bytes),0) … WHERE quota_unlimited=0 AND keep
unfoldable pub allocated : (Bucket → Bool) → List Bucket → ℤ
allocated keep [] = pos 0
allocated keep (b ∷ rows) =
    (if not b.quota_unlimited && keep b then b.quota_bytes else pos 0) +ℤ allocated keep rows

-- SQLite's sum() fails where the result is no int64.
abbrev pub is_int64 : ℤ → Bool
is_int64 z = ltb (pos_part z) two_63 && leb (neg_part z) two_63

unfoldable pub get_bucket : Str → Db → Result Bucket
get_bucket slug db = do
  b ← scan (find (λ b. str_eq b.slug slug) db.buckets) not_found
  ok (record b { deleting = any (deletion_of b.id) db.bucket_deletions })

abbrev pub new_row : Bucket → Bucket
new_row b = record b { deleting = false; used_bytes = 0; reserved_bytes = 0 }

-- The returned bucket is the argument `b` itself.
unfoldable pub create_bucket : Bucket → ℤ → Bool → Db → Result Db
create_bucket b total_limit platform_unlimited db = do
  fail_if (b.quota_unlimited && not platform_unlimited) unlimited_not_allowed
  fail_if (not b.quota_unlimited && leb_ℤ b.quota_bytes (pos 0)) quota_not_positive
  let sum = allocated (λ _. true) db.buckets
  fail_if (not (is_int64 sum)) sum_overflow
  fail_if (not b.quota_unlimited && ltb_ℤ total_limit (wrap64 (sum +ℤ b.quota_bytes))) total_quota
  fail_if (any (bucket_is b.id) db.buckets || any (λ r. str_eq r.slug b.slug) db.buckets) constraint
  ok (record db { buckets = new_row b ∷ db.buckets })

abbrev pub resize : Str → Str → ℤ → Bool → Bucket → Bucket
resize name visibility quota unlimited b = record b {
  name = name;
  visibility = visibility;
  quota_bytes = quota;
  quota_unlimited = unlimited;
}

unfoldable pub update_bucket : Str → Str → Str → ℤ → Bool → ℤ → Bool → Db → Result (Bucket × Db)
unfolding get_bucket
update_bucket slug name visibility quota unlimited total_limit platform_unlimited db = do
  fail_if (unlimited && not platform_unlimited) unlimited_not_allowed
  fail_if (not unlimited && leb_ℤ quota (pos 0)) quota_not_positive
  b ← get_bucket slug db
  fail_if b.deleting bucket_deleting
  fail_if (not unlimited && ltb_ℤ quota (wrap64 (pos (b.used_bytes + b.reserved_bytes))))
      quota_below_usage
  let sum = allocated (λ r. not (str_eq r.id b.id)) db.buckets
  fail_if (not (is_int64 sum)) sum_overflow
  fail_if (not unlimited && ltb_ℤ total_limit (wrap64 (sum +ℤ quota))) total_quota
  ok (
    resize name visibility quota unlimited b,
    record db {
      buckets = update (bucket_is b.id) (resize name visibility quota unlimited) db.buckets;
    },
  )
