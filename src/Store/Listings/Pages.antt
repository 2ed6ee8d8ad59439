-- ===== src/Store/Listings/Pages.antt =====
-- The pages of ListObjectsPage.
use rosemary_virsree.Prelude.{
  ℕ, zero, suc, ◌≤◌, ◌≡◌, refl, sym, ap, ◌∙◌, Bool, true, not, List, [], ◌∷◌, arith, ltb,
  if◌then◌else◌,
}
use rosemary_virsree.Prelude.Text.{Str, str_lt}
use rosemary_virsree.Prelude.Table.{select, count}
use rosemary_virsree.Prelude.Sorting.{sort, limit}
use rosemary_virsree.Prelude.Sorting.Counts.{count-sort}
use rosemary_virsree.Prelude.Results.{ok}
use rosemary_virsree.Model.{Object, Db}
use rosemary_virsree.Store.Listings.{on_page, cut_page, list_objects_page}

module _ {ℓ} {A : Type ℓ} (p : A → Bool) where
  count-limit-le : (n : ℕ) (xs : List A) → count p (limit n xs) ≤ count p xs
  unfolding count limit
  count-limit-le zero xs = omega arith
  count-limit-le (suc n) [] = omega arith
  count-limit-le (suc n) (x ∷ xs) = ground (arith, count-limit-le n xs)

  count-cut_page-le :
      (key : A → Str) (n : ℕ) (xs : List A) → count p (cut_page key n xs).0 ≤ count p xs
  unfolding count cut_page
  count-cut_page-le key zero xs = omega arith
  count-cut_page-le key (suc n) [] = omega arith
  count-cut_page-le key (suc zero) (x ∷ []) = omega arith
  count-cut_page-le key (suc zero) (x ∷ y ∷ xs) = ground arith
  count-cut_page-le key (suc (suc n)) (x ∷ xs) = ground (arith, count-cut_page-le key (suc n) xs)

  count-select_rest : (xs : List A) → count (λ x. not (p x)) (select p xs) ≡ 0
  unfolding count select
  count-select_rest [] = refl
  count-select_rest (x ∷ xs) = ground (arith, count-select_rest xs)

  count-select_all : (xs : List A) → count (λ _. true) (select p xs) ≡ count p xs
  unfolding count select
  count-select_all [] = refl
  count-select_all (x ∷ xs) = ground (arith, count-select_all xs)

abbrev pub at_most : ℕ → ℕ → ℕ
at_most n m = if ltb n m then n else m

module _ {ℓ} {A : Type ℓ} where
  -- A page of the first n + 1 rows holds as many rows as there are, up to n.
  length-cut_page :
      (key : A → Str) (n : ℕ) (xs : List A)
      → count (λ _. true) (cut_page key n (limit (suc n) xs)).0 ≡ at_most n (count (λ _. true) xs)
  unfolding count cut_page limit
  length-cut_page key zero xs = ground arith
  length-cut_page key (suc n) [] = ground arith
  length-cut_page key (suc zero) (x ∷ []) = ground arith
  length-cut_page key (suc zero) (x ∷ y ∷ xs) = ground arith
  length-cut_page key (suc (suc n)) (x ∷ xs) = ground (arith, length-cut_page key (suc n) xs)

-- A page of ListObjectsPage holds only ready objects of the bucket under the prefix and after the
-- cursor, and as many of them as there are, up to the limit.
pub list_objects_page-fills :
    (bucket prefix after : Str) (n : ℕ) (db : Db) (r : List Object × Str)
    → list_objects_page bucket prefix after n db ≡ ok r
    → (count (λ o. not (on_page bucket prefix after o)) r.0 ≡ 0)
      × (count (λ _. true) r.0 ≡ at_most n (count (on_page bucket prefix after) db.objects))
unfolding list_objects_page
list_objects_page-fills bucket prefix after n db r h =
    let by_key : Object → Object → Bool = λ o p. str_lt o.logical_key p.logical_key in
    let found = select (on_page bucket prefix after) db.objects in
    let off : Object → Bool = λ o. not (on_page bucket prefix after o) in
    let page = cut_page Object.logical_key n (limit (suc n) (sort by_key found)) in
    let same : page ≡ r = ground arith in
    let rows = sort by_key found in
    let none_off : count off page.0 ≡ 0 = omega (
      arith,
      count-cut_page-le off Object.logical_key n (limit (suc n) rows),
      count-limit-le off (suc n) rows,
      count-sort off by_key found,
      count-select_rest (on_page bucket prefix after) db.objects,
    ) in
    let total : count (λ _. true) rows ≡ count (on_page bucket prefix after) db.objects =
      count-sort (λ _. true) by_key found
      ∙ count-select_all (on_page bucket prefix after) db.objects in
    let filled : count (λ _. true) page.0
        ≡ at_most n (count (on_page bucket prefix after) db.objects) =
      length-cut_page Object.logical_key n rows ∙ ap (at_most n) total in
    (
      ap (λ q. count off q.0) (sym same) ∙ none_off,
      ap (λ q. count (λ _. true) q.0) (sym same) ∙ filled,
    )
