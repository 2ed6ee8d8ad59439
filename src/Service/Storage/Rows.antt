-- ===== src/Service/Storage/Rows.antt =====
-- The row of a source after it is created or updated.
use rosemary_virsree.Prelude.{◌≤◌, ◌≡◌, refl, ap, subst, true, false, some, ◌∷◌, arith}
use rosemary_virsree.Prelude.Text.{str_eq_refl}
use rosemary_virsree.Prelude.Table.{find, any, count, update}
use rosemary_virsree.Prelude.Table.Rows.{find-holds, count-update, find-update, count-any-false}
use rosemary_virsree.Prelude.Results.{ok}
use rosemary_virsree.Model.{StorageSource, Db}
use rosemary_virsree.Store.Columns.{source_is}
use rosemary_virsree.Store.Sources.{
  create_storage_source, get_storage_source, update_storage_source, reconfigure,
}

pub create-found :
    (w : StorageSource)
    → record w { used_bytes = 0; reserved_bytes = 0 } ≡ w
    → (db db' : Db) → create_storage_source w db ≡ ok db'
    → (count (source_is w.id) db'.sources ≤ 1) × (find (source_is w.id) db'.sources ≡ some w)
unfolding create_storage_source
create-found w fresh db db' h =
    let row : StorageSource = record w { used_bytes = 0; reserved_bytes = 0 } in
    let free : any (source_is w.id) db.sources ≡ false = ground (arith, h) in
    let rows : row ∷ db.sources ≡ db'.sources = ground (arith, h, free) in
    let none_left = count-any-false (source_is w.id) db.sources free in
    subst (λ vs. (count (source_is w.id) vs ≤ 1) × (find (source_is w.id) vs ≡ some w)) rows
      (
        unfold count in ground (arith, none_left),
        unfold find in rw (str_eq_refl w.id) (ap some fresh),
      )

pub update-found :
    (w current : StorageSource) (db db' : Db)
    → count (source_is w.id) db.sources ≤ 1
    → find (source_is w.id) db.sources ≡ some current
    → reconfigure w current ≡ w
    → update_storage_source w db ≡ ok db'
    → (count (source_is w.id) db'.sources ≤ 1) × (find (source_is w.id) db'.sources ≡ some w)
unfolding update_storage_source get_storage_source
update-found w current db db' once found row h =
    let rows : update (source_is w.id) (reconfigure w) db.sources ≡ db'.sources =
      ground (arith, h, found) in
    let is_row : source_is w.id current ≡ true =
      find-holds (source_is w.id) db.sources current found in
    let after =
      find-update (source_is w.id) (source_is w.id) (reconfigure w) (λ _. refl) db.sources in
    let counted =
      count-update (source_is w.id) (source_is w.id) (reconfigure w) (λ _. refl) db.sources in
    subst (λ vs. (count (source_is w.id) vs ≤ 1) × (find (source_is w.id) vs ≡ some w)) rows
      (omega (arith, once, counted), ground (arith, after, found, is_row, row))
