-- ===== src/Service/Cleanup/Purges.antt =====
-- What the stores hold of a bucket once its cleanup has succeeded.
use rosemary_virsree.Prelude.{
  ℕ, ◌≤◌, ◌<◌, ◌≡◌, refl, sym, subst, ◌∙◌, ◌⊎◌, inl, inr, Bool, true, false, ◌||◌, Option, none,
  List, [], ◌∷◌, ◌++◌, map, arith, Bool-cases,
}
use rosemary_virsree.Prelude.Text.{Str, str_eq, str_eq_iff, has_prefix}
use rosemary_virsree.Prelude.Table.{any}
use rosemary_virsree.Prelude.Table.Rows.{any-count_zero, count-any-false}
use rosemary_virsree.Prelude.Sorting.{sort}
use rosemary_virsree.Prelude.Sorting.Counts.{count-sort}
use rosemary_virsree.Prelude.Results.{ok}
use rosemary_virsree.Model.{StorageSource, Db}
use rosemary_virsree.Store.Columns.{source_is}
use rosemary_virsree.Store.Deletion.{finish_bucket_deletion}
use rosemary_virsree.Service.World.{Remote, World, proceed-ok}
use rosemary_virsree.Service.Backends.{Manager, legacy_ready, list_storage_sources, ranks_before}
use rosemary_virsree.Service.Uploads.{namespace, staging_namespace}
use rosemary_virsree.Service.Cleanup.{backends, prefixes, purge_each, purge_all, clean_bucket}
use rosemary_virsree.Service.Cleanup.Keeps.{clean_bucket-ran}

any-append :
    {A : Type 0} (p : A → Bool) (xs ys : List A) → any p (xs ++ ys) ≡ (any p xs || any p ys)
unfolding any
any-append p [] ys = refl
any-append p (x ∷ xs) ys = ground (arith, any-append p xs ys)

any-ids :
    (s : Str) (vs : List StorageSource)
    → any (λ b. str_eq b s) (map StorageSource.id vs) ≡ any (source_is s) vs
unfolding any
any-ids s [] = refl
any-ids s (v ∷ vs) = ground (arith, any-ids s vs)

-- A sorted table has the rows of the table.
any-sort :
    (p : StorageSource → Bool) (vs : List StorageSource)
    → any p vs ≡ true
    → any p (sort ranks_before vs) ≡ true
any-sort p vs h = elim (Bool-cases (any p (sort ranks_before vs))) [
  | inl found ↦ found
  | inr missing ↦
      let none_sorted = count-any-false p (sort ranks_before vs) missing in
      let none_left = any-count_zero p vs (sym (count-sort p ranks_before vs) ∙ none_sorted) in
      absurd (ground (arith, h, none_left))
]

module _ {W C : Type 0} (remote : Remote W) (m : Manager) (file : W → Str → Str → Option C) where
  -- The stores of all sources, and of the legacy backend where it is ready, are purged.
  backends-hold :
      (s : Str) (db : Db)
      → (any (source_is s) db.sources ≡ true) ⊎ ((s ≡ []) × (legacy_ready m.legacy ≡ true))
      → any (λ b. str_eq b s) (backends remote m db) ≡ true
  unfolding list_storage_sources any
  backends-hold s db (inl held) =
      any-append (λ b. str_eq b s) (map StorageSource.id (sort ranks_before db.sources)) _
      ∙ ground
          (arith, any-ids s (sort ranks_before db.sources), any-sort (source_is s) db.sources held)
  backends-hold s db (inr (same, set)) =
      any-append (λ b. str_eq b s) (map StorageSource.id (sort ranks_before db.sources)) _
      ∙ ground (arith, set, (str_eq_iff [] s).1 (sym same))

  module _
      (clears : (s p key : Str) (w : W)
        → (remote.purge_prefix s p w).0 ≡ true
        → has_prefix key p ≡ true
        → file (remote.purge_prefix s p w).1 s key ≡ none)
      (stays : (s p t key : Str) (w : W)
        → file w t key ≡ none
        → file (remote.purge_prefix s p w).1 t key ≡ none) where
    purge_each-stays :
        (s t key : Str) (ps : List Str) (w : World W)
        → file w.remote t key ≡ none
        → file (purge_each remote m s ps w).1.remote t key ≡ none
    unfolding purge_each
    purge_each-stays s t key [] w gone = gone
    purge_each-stays s t key (p ∷ ps) w gone =
        let next : World W = record w { remote = (remote.purge_prefix s p w.remote).1 } in
        let kept = stays s p t key w.remote gone in
        ground (arith, kept, purge_each-stays s t key ps next kept)

    purge_all-stays :
        (t key : Str) (bs ps : List Str) (w : World W)
        → file w.remote t key ≡ none
        → file (purge_all remote m bs ps w).1.remote t key ≡ none
    unfolding purge_all
    purge_all-stays t key [] ps w gone = gone
    purge_all-stays t key (b ∷ bs) ps w gone =
        let kept = purge_each-stays b t key ps w gone in
        ground (arith, kept, purge_all-stays t key bs ps (purge_each remote m b ps w).1 kept)

    purge_each-clears :
        (s key : Str) (ps : List Str) (w w' : World W)
        → any (has_prefix key) ps ≡ true
        → purge_each remote m s ps w ≡ (ok tt, w')
        → file w'.remote s key ≡ none
    unfolding purge_each any
    purge_each-clears s key [] w w' h ran = absurd (ground (arith, h))
    purge_each-clears s key (p ∷ ps) w w' h ran =
        let next : World W = record w { remote = (remote.purge_prefix s p w.remote).1 } in
        let went : (remote.purge_prefix s p w.remote).0 ≡ true = ground (arith, ran) in
        let rest : purge_each remote m s ps next ≡ (ok tt, w') = ground (arith, ran, went) in
        elim (Bool-cases (has_prefix key p)) [
          | inl here ↦
              let gone = clears s p key w.remote went here in
              subst (λ r. file (World.remote r.1) s key ≡ none) rest
                (purge_each-stays s s key ps next gone)
          | inr there ↦ purge_each-clears s key ps next w' (ground (arith, h, there)) rest
        ]

    purge_all-clears :
        (s key : Str) (bs ps : List Str) (w w' : World W)
        → any (λ b. str_eq b s) bs ≡ true
        → any (has_prefix key) ps ≡ true
        → purge_all remote m bs ps w ≡ (ok tt, w')
        → file w'.remote s key ≡ none
    unfolding purge_all any
    purge_all-clears s key [] ps w w' h k ran = absurd (ground (arith, h))
    purge_all-clears s key (b ∷ bs) ps w w' h k ran =
        let (_, w1, first, rest) =
          proceed-ok (λ _. purge_all remote m bs ps) (purge_each remote m b ps w) ran in
        elim (Bool-cases (str_eq b s)) [
          | inl here ↦
              let gone = purge_each-clears b key ps w w1 k first in
              let gone_here =
                subst (λ t. file w1.remote t key ≡ none) ((str_eq_iff b s).0 here) gone in
              subst (λ r. file (World.remote r.1) s key ≡ none) rest
                (purge_all-stays s key bs ps w1 gone_here)
          | inr other ↦ purge_all-clears s key bs ps w1 w' (ground (arith, h, other)) k rest
        ]

    -- Let a purge that succeeds clear its store of the files under its prefix, and let no purge bring a
    -- file back. Once the cleanup of a bucket has succeeded, the store of every source in the
    -- database, disabled ones included, and that of the legacy backend where it is ready, hold no
    -- file of the bucket's namespace or its staging namespace. The cleanup has then left the database
    -- as it was, before `after`, or has run FinishBucketDeletion.
    pub clean_bucket-purges :
        (now : ℕ) (id : Str) (after : ℕ) (w w' : World W) (s key : Str)
        → (any (source_is s) w.db.sources ≡ true) ⊎ ((s ≡ []) × (legacy_ready m.legacy ≡ true))
        → (has_prefix key (namespace id) ≡ true) ⊎ (has_prefix key (staging_namespace id) ≡ true)
        → clean_bucket remote m now id after w ≡ (ok tt, w')
        → (file w'.remote s key ≡ none)
          × (((now < after) × (w'.db ≡ w.db))
              ⊎ ((after ≤ now) × (finish_bucket_deletion now id w.db ≡ ok w'.db)))
    unfolding any
    clean_bucket-purges now id after w w' s key store inside h =
        let (ran, ended) = clean_bucket-ran remote m now id after w w' h in
        let under : any (has_prefix key) (prefixes id false) ≡ true = elim inside [
          | inl final ↦ ground (arith, final)
          | inr staged ↦ ground (arith, staged)
        ] in
        (
          purge_all-clears s key (backends remote m w.db) (prefixes id false) w
              (record w { remote = w'.remote }) (backends-hold s w.db store) under ran,
          ended,
        )
