-- ===== src/Store/Listings/Groups.antt =====
-- The groups of BucketAllocations.
use rosemary_virsree.Prelude.{
  ◌≡◌, refl, Bool, true, false, ◌&&◌, if◌then◌else◌, List, [], ◌∷◌, arith, inl, inr, Bool-cases,
}
use rosemary_virsree.Prelude.Text.{Str, str_eq, str_eq_iff}
use rosemary_virsree.Prelude.Table.{any, count}
use rosemary_virsree.Prelude.Table.Rows.{count-any-false, any-count_zero}
use rosemary_virsree.Model.{Object}
use rosemary_virsree.Store.Listings.{distinct_sources}

-- A source has one group where a row of the query lies on it, and none otherwise.
pub count-distinct_sources :
    (p : Object → Bool) (s : Str) (os : List Object)
    → count (str_eq s) (distinct_sources p os)
      ≡ (if any (λ o. p o && str_eq s o.source_id) os then 1 else 0)
unfolding distinct_sources any count
count-distinct_sources p s [] = refl
count-distinct_sources p s (o ∷ os) =
    let ih = count-distinct_sources p s os in
    let rest = distinct_sources p os in
    elim (Bool-cases (str_eq s o.source_id)) [
      | inr other ↦ elim (Bool-cases (p o)) [
        | inr out ↦ ground (arith, ih, other, out)
        | inl row ↦ elim (Bool-cases (any (str_eq o.source_id) rest)) [
          | inl old ↦ ground (arith, ih, other, row, old)
          | inr new ↦ ground (arith, ih, other, row, new)
        ]
      ]
      | inl same ↦
          let e = (str_eq_iff s o.source_id).0 same in
          elim (Bool-cases (any (str_eq o.source_id) rest)) [
            | inl old ↦
                let old' : any (str_eq s) rest ≡ true = rw e old in
                ground (arith, ih, same, old, old', any-count_zero (str_eq s) rest)
            | inr new ↦
                let new' : any (str_eq s) rest ≡ false = rw e new in
                ground (arith, ih, same, new, count-any-false (str_eq s) rest new')
          ]
    ]
