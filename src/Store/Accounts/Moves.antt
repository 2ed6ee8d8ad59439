-- ===== src/Store/Accounts/Moves.antt =====
-- How an UPDATE of one bucket or of one source shows in the rows that are found after it.
use rosemary_virsree.Prelude.{
  ◌≡◌, ◌≢◌, none, some, List, [], arith, if◌then◌else◌, Bool-cases, inl, inr, ap,
}
use rosemary_virsree.Prelude.Text.{Str, str_eq, str_eq_iff}
use rosemary_virsree.Prelude.Table.{find, update, count}
use rosemary_virsree.Prelude.Table.Rows.{count-update, find-update}
use rosemary_virsree.Prelude.Table.Keyed.{found-update}
use rosemary_virsree.Model.{Bucket, StorageSource}
use rosemary_virsree.Store.Columns.{bucket_is, source_is, update_source}

module _ (f : Bucket → Bucket) (keeps : (b : Bucket) → (f b).id ≡ b.id) (j i : Str)
    (bs : List Bucket) where
  pub found-update_bucket :
      (b' : Bucket)
      → find (bucket_is i) (update (bucket_is j) f bs) ≡ some b'
      → (b : Bucket) × (find (bucket_is i) bs ≡ some b) × (b' ≡ (if str_eq j i then f b else b))
  found-update_bucket b' e = found-update Bucket.id f keeps j i bs b' e

  pub count-update_bucket : count (bucket_is i) (update (bucket_is j) f bs) ≡ count (bucket_is i) bs
  count-update_bucket =
      count-update (bucket_is i) (bucket_is j) f (λ b. ap (λ k. str_eq k i) (keeps b)) bs

  pub missing-update_bucket :
      find (bucket_is i) (update (bucket_is j) f bs) ≡ none → find (bucket_is i) bs ≡ none
  missing-update_bucket e =
      ground
        (arith, find-update (bucket_is i) (bucket_is j) f (λ b. ap (λ k. str_eq k i) (keeps b)) bs)

module _ (f : StorageSource → StorageSource) (keeps : (s : StorageSource) → (f s).id ≡ s.id)
    (j i : Str) (ss : List StorageSource) where
  pub found-update_source :
      (s' : StorageSource)
      → i ≢ []
      → find (source_is i) (update_source j f ss) ≡ some s'
      → (s : StorageSource) × (find (source_is i) ss ≡ some s)
        × (s' ≡ (if str_eq j i then f s else s))
  found-update_source s' ne e = elim (Bool-cases (str_eq j [])) [
    | inl unnamed ↦ (s', ground arith, ground (arith, str_eq_iff j [], str_eq_iff j i))
    | inr named ↦ found-update StorageSource.id f keeps j i ss s' (ground arith)
  ]

  pub count-update_source : count (source_is i) (update_source j f ss) ≡ count (source_is i) ss
  count-update_source =
      ground
        (arith, count-update (source_is i) (source_is j) f (λ b. ap (λ k. str_eq k i) (keeps b)) ss)

  pub missing-update_source :
      find (source_is i) (update_source j f ss) ≡ none → find (source_is i) ss ≡ none
  missing-update_source e =
      ground
        (arith, find-update (source_is i) (source_is j) f (λ b. ap (λ k. str_eq k i) (keeps b)) ss)
