-- ===== src/Service/Backends.antt =====
-- internal/service/storage.go: which backend an upload goes to and where an object is read.
pub mod Primary
use rosemary_virsree.Prelude.{
  ℕ, ◌^◌, Bool, true, false, not, ◌&&◌, ◌||◌, Option, none, some, List, [], ◌∷◌, ◌++◌, map, ltb,
  ◌==◌, if◌then◌else◌,
}
use rosemary_virsree.Prelude.Int.{ℤ, pos, ltb_ℤ}
use rosemary_virsree.Prelude.Text.{Str, codes, str_eq, str_lt}
use rosemary_virsree.Prelude.Table.{find, any, select, update}
use rosemary_virsree.Prelude.Sorting.{sort}
use rosemary_virsree.Prelude.Results.{
  Result, ok, err, ◌>>=◌, ◌>>◌, fail_if, source_unavailable, primary_limited,
}
use rosemary_virsree.Model.{StorageSource, Db}
use rosemary_virsree.Store.Columns.{source_is}
use rosemary_virsree.Store.Sources.{has_unlimited_buckets}

-- sourceRuntime: `is_ready` is the answer of the backend's Ready().
pub record Runtime : Type 0 where
  pub meta : StorageSource
  pub is_ready : Bool

-- StorageManager: the map of sources as a list, in the order in which a loop visits it, and the
-- Ready() of the legacy backend where there is one.
pub record Manager : Type 0 where
  pub sources : List Runtime
  pub legacy : Option Bool

abbrev pub legacy_ready : Option Bool → Bool
legacy_ready none = false
legacy_ready (some r) = r

abbrev pub is_legacy : Option Bool → Bool
is_legacy none = false
is_legacy (some r) = true

abbrev pub runtime_is : Str → Runtime → Bool
runtime_is id s = str_eq s.meta.id id

unfoldable pub any_ready : Manager → Bool
any_ready m = any (λ s. s.meta.enabled && s.is_ready) m.sources || legacy_ready m.legacy

abbrev pub legacy_source : Runtime
legacy_source = record {
  meta = record {
    id = [];
    name = codes "Legacy S3";
    kind = codes "s3";
    priority = pos 0;
    capacity_bytes = pos (2 ^ 62);
    capacity_unlimited = false;
    used_bytes = 0;
    reserved_bytes = 0;
    enabled = true;
    direct = true;
    cdn_enabled = false;
    config_cipher = [];
    created_at = 0;
  };
  is_ready = true;
}

abbrev pub same_priority : StorageSource → StorageSource → Bool
same_priority s t = not (ltb_ℤ s.priority t.priority) && not (ltb_ℤ t.priority s.priority)

-- The order of the candidates: priority, then age.
abbrev pub comes_before : Runtime → Runtime → Bool
comes_before s t =
    if same_priority s.meta t.meta
    then ltb s.meta.created_at t.meta.created_at
    else ltb_ℤ s.meta.priority t.meta.priority

abbrev pub or_legacy : Option Bool → List Runtime → List Runtime
or_legacy legacy [] = if legacy_ready legacy then legacy_source ∷ [] else []
or_legacy legacy (s ∷ ss) = s ∷ ss

unfoldable pub candidates : Manager → List Runtime
candidates m =
    or_legacy m.legacy (sort comes_before (select (λ s. s.meta.enabled && s.is_ready) m.sources))

abbrev pub head_of : List Runtime → Option Runtime
head_of [] = none
head_of (s ∷ ss) = some s

unfoldable pub primary : Manager → Option Runtime
unfolding candidates
primary m = head_of (candidates m)

unfoldable pub primary_unlimited : Manager → Bool
unfolding primary
primary_unlimited m = elim (primary m) [ none ↦ Bool.false | some s ↦ s.meta.capacity_unlimited ]

-- The source id stands for the backend, [] for the legacy one.
unfoldable pub backend : Manager → Str → Result Str
backend m id =
    if str_eq id [] && is_legacy m.legacy then ok [] else elim (find (runtime_is id) m.sources) [
      | none ↦ err source_unavailable
      | some s ↦ if s.meta.enabled then ok id else err source_unavailable
    ]

unfoldable pub is_direct : Manager → Str → Bool
is_direct m id =
    if str_eq id []
    then legacy_ready m.legacy
    else elim (find (runtime_is id) m.sources) [ none ↦ Bool.false | some s ↦ s.meta.direct ]

-- The order of validatePrimaryCapacity: priority, age, id.
abbrev pub ranks_before : StorageSource → StorageSource → Bool
ranks_before s t =
    if same_priority s t
    then (if s.created_at == t.created_at then str_lt s.id t.id else ltb s.created_at t.created_at)
    else ltb_ℤ s.priority t.priority

unfoldable pub list_storage_sources : Db → List StorageSource
list_storage_sources db = sort ranks_before db.sources

-- The sources with the candidate in place of its row, or behind them.
abbrev pub with_candidate : StorageSource → List StorageSource → List StorageSource
with_candidate v rows =
    if any (source_is v.id) rows then update (source_is v.id) (λ _. v) rows else rows ++ v ∷ []

abbrev pub is_limited_first : List StorageSource → Bool
is_limited_first [] = false
is_limited_first (s ∷ ss) = not s.capacity_unlimited

unfoldable pub validate_primary_capacity : StorageSource → Db → Result (Unit {0})
unfolding has_unlimited_buckets list_storage_sources
validate_primary_capacity v db =
    fail_if
      (has_unlimited_buckets db
        && is_limited_first (
            sort ranks_before
              (select (λ s. s.enabled) (with_candidate v (list_storage_sources db)))))
      primary_limited
