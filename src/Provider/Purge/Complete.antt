-- ===== src/Provider/Purge/Complete.antt =====
-- What a successful S3.PurgePrefix has done.
use rosemary_virsree.Prelude.{
  ℕ, zero, suc, ◌≡◌, refl, Bool, true, false, not, ◌||◌, Option, none, some, List, [], ◌∷◌, arith,
  Bool-cases, inl, inr,
}
use rosemary_virsree.Prelude.Text.{Str, has_prefix}
use rosemary_virsree.Prelude.Effects.{Effect, proceed-ok}
use rosemary_virsree.Prelude.Results.{ok}
use rosemary_virsree.Provider.Purge.{
  Client, ObjectPage, delete_objects, purge_versions, purge_objects, valid_purge_prefix,
  purge_prefix, objects_round, next_objects,
}

module _ {W C : Type 0} (client : Client W) (prefix : Str) (content : W → Str → Option C) where
  abbrev Cleared : W → Type 0
  Cleared w = (key : Str) → has_prefix key prefix ≡ true → content w key ≡ none

  module _
      (lists_all : (w s : W) (p : ObjectPage) (key : Str)
        → client.list_objects prefix w ≡ (some p, s)
        → p.contents ≡ []
        → p.truncated ≡ false
        → has_prefix key prefix ≡ true
        → content s key ≡ none) where
    module _ (again : Effect W (Unit {0}))
        (ends : (w w' : W) → again w ≡ (ok tt, w') → Cleared w') where
      -- After a page with these keys the loop ends, or goes on.
      last_page :
          (w s s' w' : W) (p : ObjectPage) (ks : List Str)
          → client.list_objects prefix w ≡ (some p, s)
          → p.contents ≡ ks
          → delete_objects client prefix ks s ≡ (ok tt, s')
          → next_objects client prefix again p s' ≡ (ok tt, w')
          → Cleared w'
      unfolding delete_objects
      last_page w s s' w' p [] listed e deleted rest key inside = elim (Bool-cases p.truncated) [
        | inl more ↦ (ground (arith, e))
        | inr last ↦
            let same : s ≡ w' = ground (arith, e) in
            rw (← same) (lists_all w s p key listed e last inside)
      ]
      last_page w s s' w' p (k ∷ ks) listed e deleted rest key inside =
          ends s' w' (ground (arith, e)) key inside

      objects_round-clears :
          (w w' : W) (r : Option ObjectPage × W)
          → client.list_objects prefix w ≡ r
          → objects_round client prefix again r ≡ (ok tt, w')
          → Cleared w'
      objects_round-clears w w' (none, s) listed h = (ground arith)
      objects_round-clears w w' (some p, s) listed h =
          let (_, s', deleted, rest) =
            proceed-ok (λ _. next_objects client prefix again p)
              (delete_objects client prefix p.contents s) h in
          last_page w s s' w' p p.contents listed refl deleted rest

    purge_objects-clears :
        (n : ℕ) (w w' : W) → purge_objects client prefix n w ≡ (ok tt, w') → Cleared w'
    unfolding purge_objects
    purge_objects-clears zero w w' h = (ground arith)
    purge_objects-clears (suc n) w w' h =
        objects_round-clears (purge_objects client prefix n) (purge_objects-clears n) w w'
          (client.list_objects prefix w) refl h

    -- Where an empty last page of ListObjectsV2 says that no key under the prefix is left, S3.PurgePrefix
    -- returns without an error only once every key under the prefix is gone.
    pub purge_prefix-clears :
        (ready : Bool) (n m : ℕ) (w w' : W) (key : Str)
        → purge_prefix client prefix ready n m w ≡ (ok tt, w')
        → has_prefix key prefix ≡ true
        → content w' key ≡ none
    unfolding purge_prefix
    purge_prefix-clears ready n m w w' key h inside =
        elim (Bool-cases (not ready || not (valid_purge_prefix prefix))) [
          | inl refused ↦ (ground arith)
          | inr accepted ↦
              let (_, s, _, rest) =
                proceed-ok (λ _. purge_objects client prefix m) (purge_versions client prefix n w)
                  (ground arith) in
              purge_objects-clears m s w' rest key inside
        ]
