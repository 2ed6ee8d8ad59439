-- ===== src/Store/Listings.antt =====
-- internal/store/store.go: the queries that list rows.
pub mod Pages
pub mod Groups
pub mod Cursors
use mathlib.Core.Option
use rosemary_virsree.Prelude.{
  if◌then◌else◌, false, ◌==◌, ◌++◌, Option, none, some, ℕ, zero, suc, Bool, true, not, ◌&&◌, ◌||◌,
  List, [], ◌∷◌, map, ltb,
}
use rosemary_virsree.Prelude.Int.{ℤ}
use rosemary_virsree.Prelude.Text.{Str, codes, str_eq, str_lt, has_prefix, trim_prefix}
use rosemary_virsree.Prelude.Table.{find, any, select, total, count}
use rosemary_virsree.Prelude.Sorting.{sort, limit}
use rosemary_virsree.Prelude.Results.{Result, ok, err, ◌>>◌, fail_if, bad_page_limit}
use rosemary_virsree.Model.{Bucket, AccessKey, Object, StorageSource, Db}
use rosemary_virsree.Store.Columns.{
  source_is, bucket_is, object_is, deletion_of, is_ready, object_in,
}
use rosemary_virsree.Store.Commit.{get_object}
use rosemary_virsree.Store.Buckets.{allocated}

unfoldable pub list_buckets : Db → List Bucket
list_buckets db =
    sort (λ b c. ltb c.created_at b.created_at)
      (map {A = Bucket} (λ b. record b { deleting = any (deletion_of b.id) db.bucket_deletions })
        db.buckets)

-- The rows of an inner JOIN with the one bucket that each key has.
unfoldable pub list_keys : Db → List AccessKey
list_keys db =
    sort (λ k l. ltb l.created_at k.created_at)
      (select (λ k. any (bucket_is k.bucket_id) db.buckets) db.access_keys)

pub record Metrics : Type 0 where
  pub objects : ℕ
  pub active_keys : ℕ
  pub active_links : ℕ

unfoldable pub bucket_metrics : Str → Db → Metrics
bucket_metrics id db = record {
  objects = count (λ o. object_in id o && is_ready o) db.objects;
  active_keys = count (λ k. str_eq k.bucket_id id && not k.revoked) db.access_keys;
  active_links =
      count (λ l. any (λ o. object_is l.object_id o && object_in id o) db.objects && not l.revoked)
        db.public_links;
}

pub record Allocation : Type 0 where
  pub source_id : Str
  pub source_name : Str
  pub source_kind : Str
  pub object_count : ℕ
  pub used_bytes : ℕ

-- The sources of the rows, each once.
unfoldable pub distinct_sources : (Object → Bool) → List Object → List Str
unfolding any
distinct_sources p [] = []
distinct_sources p (o ∷ os) =
    let rest = distinct_sources p os in
    if p o && not (any (str_eq o.source_id) rest) then o.source_id ∷ rest else rest

abbrev pub named : Str → List StorageSource → Str × Str
named id sources = elim (find (source_is id) sources) [
  | Option.none ↦ (codes "Legacy S3", codes "s3")
  | Option.some s ↦ (s.name, s.kind)
]

abbrev pub ready_in : Str → Object → Bool
ready_in id o = object_in id o && is_ready o

abbrev pub allocation : Str → Db → Str → Allocation
allocation id db source = record {
  source_id = source;
  source_name = (named source db.sources).0;
  source_kind = (named source db.sources).1;
  object_count = count (λ o. ready_in id o && str_eq o.source_id source) db.objects;
  used_bytes = total (λ o. ready_in id o && str_eq o.source_id source) Object.size db.objects;
}

unfoldable pub bucket_allocations : Str → Db → List Allocation
unfolding distinct_sources
bucket_allocations id db =
    sort (λ a b. ltb b.used_bytes a.used_bytes)
      (map {A = Str} (allocation id db) (distinct_sources (ready_in id) db.objects))

pub record Totals : Type 0 where
  pub buckets : ℕ
  pub objects : ℕ
  pub active_keys : ℕ
  pub used_bytes : ℕ
  pub reserved_bytes : ℕ
  pub allocated_quota : ℤ

unfoldable pub overview : Db → Totals
unfolding allocated
overview db = record {
  buckets = count (λ _. true) db.buckets;
  objects = count is_ready db.objects;
  active_keys = count (λ k. not k.revoked) db.access_keys;
  used_bytes = total (λ _. true) Bucket.used_bytes db.buckets;
  reserved_bytes = total (λ _. true) Bucket.reserved_bytes db.buckets;
  allocated_quota = allocated (λ _. true) db.buckets;
}

-- The WHERE clause of a page: `key >= prefix`, `key > after` and the prefix.
abbrev pub on_page : Str → Str → Str → Object → Bool
on_page bucket prefix after o =
    object_in bucket o
    && (is_ready o
        && (not (str_lt o.logical_key prefix)
            && (str_lt after o.logical_key && has_prefix o.logical_key prefix)))

-- out[:limit] and the key of its last row, where there is a row more than the limit.
unfoldable pub cut_page {ℓ} : {A : Type ℓ} → (A → Str) → ℕ → List A → List A × Str
cut_page key zero out = ([], [])
cut_page key (suc n) [] = ([], [])
cut_page key (suc zero) (o ∷ []) = (o ∷ [], [])
cut_page key (suc zero) (o ∷ p ∷ out) = (o ∷ [], key o)
cut_page key (suc (suc n)) (o ∷ out) = let rest = cut_page key (suc n) out in (o ∷ rest.0, rest.1)

unfoldable pub list_objects_page : Str → Str → Str → ℕ → Db → Result (List Object × Str)
unfolding cut_page
list_objects_page bucket prefix after n db = do
  fail_if (ltb n 1 || ltb 1000 n) bad_page_limit
  ok (
      cut_page Object.logical_key n (
        limit (suc n) (
          sort (λ o p. str_lt o.logical_key p.logical_key)
            (select (on_page bucket prefix after) db.objects))))

-- The WHERE clause of `scoped`.
abbrev pub in_scope : Str → Str → Object → Bool
in_scope bucket prefix o =
    object_in bucket o
    && (is_ready o
        && (not (str_lt o.logical_key prefix)
            && (has_prefix o.logical_key prefix && not (str_eq o.logical_key prefix))))

-- substr(rest,1,instr(rest,'/')), where there is a slash.
unfoldable pub through_slash : Str → Option Str
through_slash [] = none
through_slash (c ∷ s) = if c == 47 then some (c ∷ []) else Option.map (λ t. c ∷ t) (through_slash s)

-- The folder of the next path segment, or the key itself.
abbrev pub entry_of : Str → Object → Str
entry_of prefix o = elim (through_slash (trim_prefix o.logical_key prefix)) [
  | none ↦ o.logical_key
  | some segment ↦ prefix ++ segment
]

-- SELECT DISTINCT
unfoldable pub distinct : List Str → List Str
distinct [] = []
distinct (e ∷ es) = let rest = distinct es in if any (str_eq e) rest then rest else e ∷ rest

-- strings.HasSuffix(key, "/")
unfoldable pub ends_with_slash : Str → Bool
ends_with_slash [] = false
ends_with_slash (c ∷ []) = c == 47
ends_with_slash (c ∷ d ∷ s) = ends_with_slash (d ∷ s)

pub record ObjectEntry : Type 0 where
  pub key : Str
  pub folder : Bool
  pub object : Option Object

-- Folders, and the keys whose objects are still there.
unfoldable pub resolve_entries : Str → Db → List Str → List ObjectEntry
unfolding ends_with_slash
resolve_entries bucket db [] = []
resolve_entries bucket db (e ∷ es) =
    let rest = resolve_entries bucket db es in
    if ends_with_slash e
    then record { key = e; folder = true; object = none } ∷ rest
    else elim (get_object bucket e db) [
      | ok o ↦ record { key = e; folder = false; object = some o } ∷ rest
      | err _ ↦ rest
    ]

unfoldable pub browse_objects_page : Str → Str → Str → ℕ → Db → Result (List ObjectEntry × Str)
unfolding cut_page distinct through_slash resolve_entries
browse_objects_page bucket prefix after n db = do
  fail_if (ltb n 1 || ltb 1000 n) bad_page_limit
  let entries = limit (suc n) (
      sort str_lt (
        select (str_lt after)
          (distinct (map (entry_of prefix) (select (in_scope bucket prefix) db.objects)))))
  let page = cut_page (λ e. e) n entries
  ok (resolve_entries bucket db page.0, page.1)
