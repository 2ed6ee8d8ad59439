-- ===== src/Provider/Purge/Outside.antt =====
-- What S3.PurgePrefix leaves alone.
use rosemary_virsree.Prelude.{
  ℕ, zero, suc, ◌≡◌, ◌≢◌, refl, ap, ◌∙◌, inl, inr, Bool, true, false, not, ◌||◌, none, some, List,
  [], ◌∷◌, arith, Bool-cases, Option,
}
use rosemary_virsree.Prelude.Text.{Str, has_prefix}
use rosemary_virsree.Prelude.Effects.{Effect}
use rosemary_virsree.Prelude.Effects.Leaves.{Leaves, proceed-Leaves}
use rosemary_virsree.Provider.Purge.{
  Version, Client, Answer, page, unsupported, failed, answered, erase_versions, delete_objects,
  purge_versions, purge_objects, purge_prefix, valid_purge_prefix, versions_round, objects_round,
  next_versions, next_objects, VersionPage, ObjectPage,
}

module _ {W C : Type 0} (client : Client W) (prefix : Str) (content : W → Str → C) where
  module _ (key : Str) (outside : has_prefix key prefix ≡ false) where
    answered_state : (r : Bool × W) → (answered r).1 ≡ r.1
    answered_state (true, w) = refl
    answered_state (false, w) = refl

    module _
        (lists_versions : (w : W)
          → content (client.list_object_versions prefix w).1 key ≡ content w key)
        (erases_one : (v : Version) (w : W)
          → v.key ≢ key
          → content (client.delete_version v w).1 key ≡ content w key) where
      -- One erased version.
      one_version :
          (v : Version)
          → has_prefix v.key prefix ≡ true
          → Leaves (λ s. content s key) (λ w. answered (client.delete_version v w))
      one_version v inside w =
          ap (λ s. content s key) (answered_state (client.delete_version v w))
          ∙ erases_one v w (λ e. absurd (ground (arith, e, outside)))

      erase_versions-Leaves :
          (vs : List Version) → Leaves (λ s. content s key) (erase_versions client prefix vs)
      unfolding erase_versions
      erase_versions-Leaves [] w = refl
      erase_versions-Leaves (v ∷ vs) w = elim (Bool-cases (has_prefix v.key prefix)) [
        | inr out ↦ rw out refl
        | inl inside ↦ rw inside (
            proceed-Leaves (λ s. content s key) (λ _. erase_versions client prefix vs)
              (λ _. erase_versions-Leaves vs) (answered (client.delete_version v w))
            ∙ one_version v inside w)
      ]

      next_versions-Leaves :
          (again : Effect W (Unit {0}))
          → Leaves (λ s. content s key) again
          → (p : VersionPage) → Leaves (λ s. content s key) (next_versions client prefix again p)
      next_versions-Leaves again kept p w = ground (arith, kept w)

      versions_round-Leaves :
          (again : Effect W (Unit {0}))
          → Leaves (λ s. content s key) again
          → (r : Answer × W)
          → content (versions_round client prefix again r).1 key ≡ content r.1 key
      versions_round-Leaves again kept (unsupported, w) = refl
      versions_round-Leaves again kept (failed, w) = refl
      versions_round-Leaves again kept (page p, w) =
          proceed-Leaves (λ s. content s key) _
            (λ _ s.
              proceed-Leaves (λ s. content s key) _ (λ _. next_versions-Leaves again kept p)
                (erase_versions client prefix p.delete_markers s)
              ∙ erase_versions-Leaves p.delete_markers s)
            (erase_versions client prefix p.versions w)
          ∙ erase_versions-Leaves p.versions w

      purge_versions-Leaves : (n : ℕ) → Leaves (λ s. content s key) (purge_versions client prefix n)
      unfolding purge_versions
      purge_versions-Leaves zero w = refl
      purge_versions-Leaves (suc n) w =
          versions_round-Leaves (purge_versions client prefix n) (purge_versions-Leaves n)
            (client.list_object_versions prefix w)
          ∙ lists_versions w

    module _
        (lists_objects : (w : W) → content (client.list_objects prefix w).1 key ≡ content w key)
        (deletes_one : (k : Str) (w : W)
          → k ≢ key
          → content (client.delete_object k w).1 key ≡ content w key) where
      one_object :
          (k : Str)
          → has_prefix k prefix ≡ true
          → Leaves (λ s. content s key) (λ w. answered (client.delete_object k w))
      one_object k inside w =
          ap (λ s. content s key) (answered_state (client.delete_object k w))
          ∙ deletes_one k w (λ e. absurd (ground (arith, e, outside)))

      delete_objects-Leaves :
          (ks : List Str) → Leaves (λ s. content s key) (delete_objects client prefix ks)
      unfolding delete_objects
      delete_objects-Leaves [] w = refl
      delete_objects-Leaves (k ∷ ks) w = elim (Bool-cases (has_prefix k prefix)) [
        | inr out ↦ rw out refl
        | inl inside ↦ rw inside (
            proceed-Leaves (λ s. content s key) (λ _. delete_objects client prefix ks)
              (λ _. delete_objects-Leaves ks) (answered (client.delete_object k w))
            ∙ one_object k inside w)
      ]

      next_objects-Leaves :
          (again : Effect W (Unit {0}))
          → Leaves (λ s. content s key) again
          → (p : ObjectPage) → Leaves (λ s. content s key) (next_objects client prefix again p)
      next_objects-Leaves again kept p w = ground (arith, kept w)

      objects_round-Leaves :
          (again : Effect W (Unit {0}))
          → Leaves (λ s. content s key) again
          → (r : Option ObjectPage × W)
          → content (objects_round client prefix again r).1 key ≡ content r.1 key
      objects_round-Leaves again kept (none, w) = refl
      objects_round-Leaves again kept (some p, w) =
          proceed-Leaves (λ s. content s key) _ (λ _. next_objects-Leaves again kept p)
            (delete_objects client prefix p.contents w)
          ∙ delete_objects-Leaves p.contents w

      purge_objects-Leaves : (n : ℕ) → Leaves (λ s. content s key) (purge_objects client prefix n)
      unfolding purge_objects
      purge_objects-Leaves zero w = refl
      purge_objects-Leaves (suc n) w =
          objects_round-Leaves (purge_objects client prefix n) (purge_objects-Leaves n)
            (client.list_objects prefix w)
          ∙ lists_objects w

  -- Where listing changes nothing and a deletion changes the content of its own key only, S3.PurgePrefix
  -- leaves the content of every key outside the prefix as it was, whatever the pages hold and however
  -- it ends.
  pub purge_prefix-outside :
      ((key : Str) (w : W) → content (client.list_object_versions prefix w).1 key ≡ content w key)
      → ((v : Version) (key : Str) (w : W)
          → v.key ≢ key
          → content (client.delete_version v w).1 key ≡ content w key)
      → ((key : Str) (w : W) → content (client.list_objects prefix w).1 key ≡ content w key)
      → ((k key : Str) (w : W) → k ≢ key → content (client.delete_object k w).1 key ≡ content w key)
      → (ready : Bool) (n m : ℕ) (w : W) (key : Str) → has_prefix key prefix ≡ false
      → content (purge_prefix client prefix ready n m w).1 key ≡ content w key
  unfolding purge_prefix
  purge_prefix-outside lists_v erases lists_o deletes ready n m w key outside =
      elim (Bool-cases (not ready || not (valid_purge_prefix prefix))) [
        | inl refused ↦ rw refused refl
        | inr accepted ↦ rw accepted (
            proceed-Leaves (λ s. content s key) (λ _. purge_objects client prefix m)
              (λ _. purge_objects-Leaves key outside (lists_o key) (λ k. deletes k key) m)
              (purge_versions client prefix n w)
            ∙ purge_versions-Leaves key outside (lists_v key) (λ v. erases v key) n w)
      ]
