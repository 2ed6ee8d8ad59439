-- ===== src/Store/Listings/Cursors.antt =====
-- A client of ListObjectsPage that follows the cursors.
use mathlib.Core.Option
use rosemary_virsree.Prelude.{
  ℕ, zero, suc, ◌≤◌, ◌<◌, ◌≡◌, refl, sym, subst, ap, ◌∙◌, ◌⊎◌, inl, inr, Option, none, some, Bool,
  true, false, not, ◌&&◌, List, [], ◌∷◌, ◌++◌, arith, if◌then◌else◌,
}
use rosemary_virsree.Prelude.Text.{Str, str_lt, str_eq}
use rosemary_virsree.Prelude.Table.{select, count}
use rosemary_virsree.Prelude.Table.Selects.{
  select_all, count-select, select-select, select-same, count-select_implied, count-append,
}
use rosemary_virsree.Prelude.Sorting.{sort, limit}
use rosemary_virsree.Prelude.Sorting.Strict.{
  Ascending, before, Distinct, sort-Ascending, sort-select, str_lt_irrefl, str_lt_trans,
  str_lt_asym,
}
use rosemary_virsree.Prelude.Sorting.Counts.{count-sort}
use rosemary_virsree.Prelude.Results.{ok, err}
use rosemary_virsree.Model.{Object, Db}
use rosemary_virsree.Store.Columns.{object_in}
use rosemary_virsree.Store.Listings.{on_page, cut_page, list_objects_page}

module _ {A : Type 0} where
  module _ (key : A → Str) where
    -- What every row of the list has.
    abbrev Among : A → List A → Type 0
    Among r xs = (q : A → Bool) → count (λ y. not (q y)) xs ≡ 0 → q r ≡ true

    -- The page is all the rows, or it ends at a row behind whose key the other rows are.
    abbrev Splits : List A × Str → List A → Type 0
    Splits c rows =
        ((c.0 ≡ rows) × (c.1 ≡ []))
        ⊎ ((r : A) × (c.1 ≡ key r)
            × Among r rows
            × ((x : A) × (xs : List A) × (c.0 ≡ x ∷ xs))
            × (c.0 ++ select (λ o. str_lt (key r) (key o)) rows ≡ rows))

    cut_page-Splits :
        (n : ℕ) (rows : List A)
        → Ascending key rows
        → Splits (cut_page key (suc n) (limit (suc (suc n)) rows)) rows
    unfolding cut_page limit Ascending count select
    cut_page-Splits zero [] up = inl (refl, refl)
    cut_page-Splits zero (x ∷ []) up = inl (refl, refl)
    cut_page-Splits zero (x ∷ y ∷ rows) up = inr (
      x,
      refl,
      λ q h. ground (arith, h),
      (x, [], refl),
      ground
          (arith, str_lt_irrefl (key x), select_all (λ o. str_lt (key x) (key o)) (y ∷ rows) up.0),
    )
    cut_page-Splits (suc n) [] up = inl (refl, refl)
    cut_page-Splits (suc n) (x ∷ rows) up = elim (cut_page-Splits n rows up.1) [
      | inl (all, last) ↦ inl (ap (λ r. x ∷ r) all, last)
      | inr (r, cursor, among, nonempty, split) ↦ inr (
        r,
        cursor,
        λ q h. among q (ground (arith, h)),
        (x, _, refl),
        ground
            (arith, split, str_lt_asym (key x) (key r) (among (λ o. str_lt (key x) (key o)) up.0)),
      )
    ]

-- All matching objects behind a key, in the order of their keys.
abbrev pub objects_after : Str → Str → Str → Db → List Object
objects_after bucket prefix after db =
    sort (before Object.logical_key) (select (on_page bucket prefix after) db.objects)

-- UNIQUE(bucket_id, logical_key)
abbrev pub UniqueKeys : Str → Db → Type 0
UniqueKeys bucket db = Distinct Object.logical_key (select (object_in bucket) db.objects)

-- Behind a later cursor are those of the objects behind the earlier one whose keys are above it.
on_page-later :
    (bucket prefix after next : Str) (o : Object)
    → str_lt after next ≡ true
    → (on_page bucket prefix after o && str_lt next o.logical_key) ≡ on_page bucket prefix next o
on_page-later bucket prefix after next o h = ground (arith, str_lt_trans after next o.logical_key)

on_page-Distinct :
    (bucket prefix after : Str) (db : Db)
    → UniqueKeys bucket db
    → Distinct Object.logical_key (select (on_page bucket prefix after) db.objects)
on_page-Distinct bucket prefix after db unique k = omega (
  arith,
  unique k,
  count-select (object_in bucket) (on_page bucket prefix after) db.objects
      (λ o h. ground (arith, h)) (λ o. str_eq o.logical_key k),
)

objects_after-later :
    (bucket prefix after next : Str) (db : Db)
    → UniqueKeys bucket db
    → str_lt after next ≡ true
    → select (λ o. str_lt next o.logical_key) (objects_after bucket prefix after db)
      ≡ objects_after bucket prefix next db
objects_after-later bucket prefix after next db unique later =
    let matching = select (on_page bucket prefix after) db.objects in
    let distinct = on_page-Distinct bucket prefix after db unique in
    sym (sort-select Object.logical_key (λ o. str_lt next o.logical_key) matching distinct)
    ∙ ap (sort (before Object.logical_key)) (
        select-select (on_page bucket prefix after) (λ o. str_lt next o.logical_key) db.objects
        ∙ select-same _ _ db.objects (λ o. on_page-later bucket prefix after next o later))

-- A page holds every object behind the cursor, or those up to a later cursor that it returns.
abbrev pub Partition : Str → Str → Str → Db → List Object × Str → Type 0
Partition bucket prefix after db r =
    ((r.1 ≡ []) × (r.0 ≡ objects_after bucket prefix after db))
    ⊎ ((str_eq r.1 [] ≡ false)
        × ((x : Object) × (xs : List Object) × (r.0 ≡ x ∷ xs))
        × (r.0 ++ objects_after bucket prefix r.1 db ≡ objects_after bucket prefix after db))

not_empty : (s t : Str) → str_lt s t ≡ true → str_eq t [] ≡ false
unfolding str_lt str_eq
not_empty [] [] h = ground arith
not_empty (a ∷ s) [] h = ground arith
not_empty s (b ∷ t) h = refl

cut-Partition :
    (bucket prefix after : Str) (n : ℕ) (db : Db)
    → UniqueKeys bucket db
    → Partition bucket prefix after db (
        cut_page Object.logical_key
          (suc n)
          (limit (suc (suc n)) (objects_after bucket prefix after db)))
cut-Partition bucket prefix after n db unique =
    let rows = objects_after bucket prefix after db in
    let distinct : Distinct Object.logical_key (select (on_page bucket prefix after) db.objects) =
      on_page-Distinct bucket prefix after db unique in
    elim (cut_page-Splits Object.logical_key n rows
      (sort-Ascending Object.logical_key _ distinct)) [
        | inl (all, last) ↦ inl (last, all)
        | inr (r, cursor, among, nonempty, split) ↦
            let later : str_lt after r.logical_key ≡ true =
              among (λ o. str_lt after o.logical_key)
                (count-sort (λ o. not (str_lt after o.logical_key)) (before Object.logical_key) _
                  ∙ count-select_implied (on_page bucket prefix after) _ db.objects
                      (λ o h. ground (arith, h))) in
            inr (
              rw cursor (not_empty after r.logical_key later),
              nonempty,
              rw (cursor, ← objects_after-later bucket prefix after r.logical_key db unique later)
                  split,
            )
      ]

abbrev pub collected : List Object × Str → Option (List Object) → Option (List Object)
collected r rest = if str_eq r.1 [] then some r.0 else Option.map (λ objects. r.0 ++ objects) rest

-- The objects that a client collects with pages of `n` rows, until a page has no cursor.
unfoldable pub follow : ℕ → ℕ → Str → Str → Str → Db → Option (List Object)
follow zero n bucket prefix after db = none
follow (suc fuel) n bucket prefix after db = elim (list_objects_page bucket prefix after n db) [
  | err e ↦ none
  | ok r ↦ collected r (follow fuel n bucket prefix r.1 db)
]

collected_last :
    (rows ys : List Object) (next : Str) (rest : Option (List Object))
    → next ≡ []
    → rows ≡ ys
    → collected (rows, next) rest ≡ some ys
collected_last rows ys next rest last all = rw last (unfold str_eq in ap some all)

collected_more :
    (r : List Object × Str) (rest : Option (List Object)) (xs ys : List Object)
    → str_eq r.1 [] ≡ false
    → rest ≡ some xs
    → r.0 ++ xs ≡ ys
    → collected r rest ≡ some ys
collected_more r rest xs ys more went joined = rw (more, went) (ap some joined)

follow_page :
    (fuel n : ℕ) (bucket prefix after : Str) (db : Db) (r : List Object × Str)
    → list_objects_page bucket prefix after n db ≡ ok r
    → follow (suc fuel) n bucket prefix after db ≡ collected r (follow fuel n bucket prefix r.1 db)
unfolding follow
follow_page fuel n bucket prefix after db r e = ground (arith, e)

shorter :
    {A : Type 0} (rows xs ys : List A) (x : A)
    → rows ≡ x ∷ xs
    → count (λ _. true) ys < count (λ _. true) (rows ++ ys)
unfolding count
shorter rows xs ys x e = rw e (omega (arith, count-append (λ _. true) xs ys))

list_objects_page-ok :
    (bucket prefix after : Str) (n : ℕ) (db : Db)
    → suc n ≤ 1000
    → list_objects_page bucket prefix after (suc n) db
      ≡ ok (
          cut_page Object.logical_key
            (suc n)
            (limit (suc (suc n)) (objects_after bucket prefix after db)))
unfolding list_objects_page
list_objects_page-ok bucket prefix after n db h = ground arith

-- Where no two objects of the bucket share a key, a client that asks ListObjectsPage for 1 to 1,000
-- rows a page and follows the cursors comes to a page without one, and has then collected every
-- matching object behind the first cursor once, in the order of the keys. It takes at most one page
-- more than there are such objects.
pub list_objects_page-followed :
    (fuel n : ℕ) (bucket prefix after : Str) (db : Db)
    → UniqueKeys bucket db
    → 1 ≤ n
    → n ≤ 1000
    → count (λ _. true) (objects_after bucket prefix after db) < fuel
    → follow fuel n bucket prefix after db ≡ some (objects_after bucket prefix after db)
list_objects_page-followed zero n bucket prefix after db unique low high enough =
    absurd (omega (arith, enough))
list_objects_page-followed (suc fuel) zero bucket prefix after db unique low high enough =
    absurd (omega (arith, low))
list_objects_page-followed (suc fuel) (suc n) bucket prefix after db unique low high enough =
    let page =
      follow_page fuel (suc n) bucket prefix after db _
        (list_objects_page-ok bucket prefix after n db high) in
    elim (cut-Partition bucket prefix after n db unique) [
      | inl (last, all) ↦ page ∙ collected_last _ _ _ _ last all
      | inr (more, (x, xs, nonempty), joined) ↦
          let r =
            cut_page Object.logical_key (suc n)
              (limit (suc (suc n)) (objects_after bucket prefix after db)) in
          let fewer : count (λ _. true) (objects_after bucket prefix r.1 db)
              < count (λ _. true) (objects_after bucket prefix after db) =
            subst
              (λ rows.
                count (λ _. true) (objects_after bucket prefix r.1 db) < count (λ _. true) rows)
              joined (shorter r.0 xs (objects_after bucket prefix r.1 db) x nonempty) in
          let rest =
            list_objects_page-followed fuel (suc n) bucket prefix r.1 db unique low high
              (omega (arith, fewer, enough)) in
          page ∙ collected_more r _ _ _ more rest joined
    ]
