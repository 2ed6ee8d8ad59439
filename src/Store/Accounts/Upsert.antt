-- ===== src/Store/Accounts/Upsert.antt =====
-- What the upsert of CommitUpload does to the sums over the objects and to their keys.
use rosemary_virsree.Prelude.{
  ◌+◌, ◌≤◌, ◌≡◌, refl, true, false, not, Option, none, some, List, [], ◌∷◌, arith, if◌then◌else◌,
}
use rosemary_virsree.Prelude.Text.{Str, str_eq, str_eq_iff, str_eq_refl}
use rosemary_virsree.Prelude.Table.{find, update, total, count}
use rosemary_virsree.Prelude.Table.Rows.{find-holds, count-update, count-find-none}
use rosemary_virsree.Prelude.Table.Keyed.{count-insert}
use rosemary_virsree.Prelude.Table.Sums.{total-update, le-total-find}
use rosemary_virsree.Model.{Object, ready}
use rosemary_virsree.Store.Columns.{object_is, object_at, is_ready, object_in, object_on}
use rosemary_virsree.Store.Commit.{upsert, overwrite, object_clashes, old_size, held_on}

-- Only one row has the bucket and the key that an upload commits to.
abbrev pub KeysUnique : List Object → Type 0
KeysUnique rows = (i k : Str) → count (object_at i k) rows ≤ 1

abbrev pub Replaces : Object → Option Object → List Object → Type 0
Replaces new old rows = find (object_at new.bucket_id new.logical_key) rows ≡ old

pub replaced_bucket :
    (new old : Object) (rows : List Object)
    → Replaces new (some old) rows
    → old.bucket_id ≡ new.bucket_id
replaced_bucket new old rows found = ground (
  arith,
  find-holds (object_at new.bucket_id new.logical_key) rows old,
  str_eq_iff old.bucket_id new.bucket_id,
)

pub total-upsert_in :
    (new : Object) (old : Option Object) (rows : List Object) (i : Str)
    → Replaces new old rows
    → KeysUnique rows
    → total (object_in i) Object.size (upsert new old rows)
        + (if str_eq new.bucket_id i then old_size old else 0)
      ≡ total (object_in i) Object.size rows + (if str_eq new.bucket_id i then new.size else 0)
total-upsert_in new none rows i found keys = unfold total in ground arith
total-upsert_in new (some o) rows i found keys = ground (
  arith,
  replaced_bucket new o rows,
  total-update (object_in i) Object.size (object_at new.bucket_id new.logical_key) (overwrite new)
      rows o (keys new.bucket_id new.logical_key),
)

pub total-upsert_on :
    (new : Object) (old : Option Object) (rows : List Object) (i : Str)
    → Replaces new old rows
    → KeysUnique rows
    → total (object_on i) Object.size (upsert new old rows)
        + (if str_eq (held_on old) i then old_size old else 0)
      ≡ total (object_on i) Object.size rows + (if str_eq new.source_id i then new.size else 0)
total-upsert_on new none rows i found keys = unfold total in ground arith
total-upsert_on new (some o) rows i found keys = ground (
  arith,
  total-update (object_on i) Object.size (object_at new.bucket_id new.logical_key) (overwrite new)
      rows o (keys new.bucket_id new.logical_key),
)

pub upsert-KeysUnique :
    (new : Object) (old : Option Object) (rows : List Object)
    → Replaces new old rows
    → KeysUnique rows
    → KeysUnique (upsert new old rows)
upsert-KeysUnique new none rows found keys i k =
    let free = count-find-none (object_at new.bucket_id new.logical_key) rows found in
    unfold count in
    ground (arith, keys i k, str_eq_iff new.bucket_id i, str_eq_iff new.logical_key k, free)
upsert-KeysUnique new (some o) rows found keys i k =
    rw
      (count-update (object_at i k) (object_at new.bucket_id new.logical_key) (overwrite new)
        (λ _. refl) rows)
      (keys i k)

pub count_ids-upsert :
    (new : Object) (old : Option Object) (rows : List Object) (i : Str)
    → object_clashes new old rows ≡ false
    → count (object_is i) rows ≤ 1
    → count (object_is i) (upsert new old rows) ≤ 1
count_ids-upsert new none rows i free u =
    count-insert Object.id (record new { public = false }) rows (ground arith) i u
count_ids-upsert new (some o) rows i free u =
    rw
      (count-update (object_is i) (object_at new.bucket_id new.logical_key) (overwrite new)
        (λ _. refl) rows)
      u

pub count_in-upsert :
    (new : Object) (old : Option Object) (rows : List Object) (i : Str)
    → count (object_in i) (upsert new old rows)
      ≤ count (object_in i) rows + (if str_eq new.bucket_id i then 1 else 0)
count_in-upsert new none rows i = unfold count in ground arith
count_in-upsert new (some o) rows i = ground (
  arith,
  count-update (object_in i) (object_at new.bucket_id new.logical_key) (overwrite new) (λ _. refl)
      rows,
)

count_on-update :
    (new : Object) (rows : List Object) (i : Str)
    → str_eq new.source_id i ≡ false
    → count (object_on i) (update (object_at new.bucket_id new.logical_key) (overwrite new) rows)
      ≤ count (object_on i) rows
unfolding count update
count_on-update new [] i other = omega arith
count_on-update new (x ∷ rows) i other = ground (arith, count_on-update new rows i)

update_ready :
    (new : Object) (rows : List Object)
    → count (λ o. not (is_ready o)) rows ≡ 0
    → count
        (λ o. not (is_ready o))
        (update (object_at new.bucket_id new.logical_key) (overwrite new) rows)
      ≡ 0
unfolding count update
update_ready new [] h = refl
update_ready new (x ∷ rows) h = ground (arith, update_ready new rows, str_eq_refl ready)

-- The upsert leaves every row ready.
pub all_ready-upsert :
    (new : Object) (old : Option Object) (rows : List Object)
    → is_ready new ≡ true
    → count (λ o. not (is_ready o)) rows ≡ 0
    → count (λ o. not (is_ready o)) (upsert new old rows) ≡ 0
all_ready-upsert new none rows r h = unfold count in ground arith
all_ready-upsert new (some o) rows r h = update_ready new rows h

pub old_size-le_in :
    (new : Object) (old : Option Object) (rows : List Object) (i : Str)
    → Replaces new old rows
    → (if str_eq new.bucket_id i then old_size old else 0) ≤ total (object_in i) Object.size rows
old_size-le_in new none rows i found = ground arith
old_size-le_in new (some o) rows i found = ground (
  arith,
  replaced_bucket new o rows,
  le-total-find (object_in i) Object.size (object_at new.bucket_id new.logical_key) rows o,
)

pub old_size-le_on :
    (new : Object) (old : Option Object) (rows : List Object) (i : Str)
    → Replaces new old rows
    → (if str_eq (held_on old) i then old_size old else 0) ≤ total (object_on i) Object.size rows
old_size-le_on new none rows i found = ground arith
old_size-le_on new (some o) rows i found =
    le-total-find (object_on i) Object.size (object_at new.bucket_id new.logical_key) rows o found

pub count_on-upsert :
    (new : Object) (old : Option Object) (rows : List Object) (i : Str)
    → str_eq new.source_id i ≡ false
    → count (object_on i) (upsert new old rows) ≤ count (object_on i) rows
count_on-upsert new none rows i other = unfold count in ground arith
count_on-upsert new (some o) rows i other = count_on-update new rows i other
