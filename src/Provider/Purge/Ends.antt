-- ===== src/Provider/Purge/Ends.antt =====
-- Termination of the loops of S3.PurgePrefix.
use rosemary_virsree.Prelude.{
  ℕ, zero, suc, ◌≤◌, ◌<◌, ◌≡◌, ◌≢◌, refl, ap, Bool, true, not, ◌||◌, Option, none, some, List, [],
  ◌∷◌, ◌++◌, arith, Bool-cases, inl, inr,
}
use rosemary_virsree.Prelude.Text.{Str, has_prefix}
use rosemary_virsree.Prelude.Effects.{Effect, proceed}
use rosemary_virsree.Prelude.Results.{err, out_of_fuel}
use rosemary_virsree.Provider.Purge.{
  Version, Client, ObjectPage, VersionPage, Answer, page, failed, unsupported, next_versions,
  versions_round, erase_versions, delete_objects, purge_versions, purge_objects, valid_purge_prefix,
  purge_prefix, objects_round, next_objects,
}
use rosemary_virsree.Provider.Purge.Within.{
  InTime, Below, proceed-InTime, proceed-Below, answered-Below,
}

module _ {W : Type 0} (client : Client W) (prefix : Str) where
  module _ (objects : W → ℕ)
      (listing : (w : W) → objects (client.list_objects prefix w).1 ≤ objects w)
      (deleting : (k : Str) (w : W) → objects (client.delete_object k w).1 ≤ objects w) where
    delete_objects-Below :
        (n : ℕ) (ks : List Str) (w : W)
        → objects w < n
        → Below objects n (delete_objects client prefix ks w)
    unfolding delete_objects
    delete_objects-Below n [] w h = (ground arith, λ _. h)
    delete_objects-Below n (k ∷ ks) w h = elim (Bool-cases (has_prefix k prefix)) [
      | inr out ↦ rw out (ground arith, λ went. absurd (ground arith))
      | inl inside ↦ rw inside (
          proceed-Below objects _ n _
            (answered-Below objects n (client.delete_object k w)
              (λ _. omega (arith, deleting k w, h)))
            (delete_objects-Below n ks))
    ]

    -- The first deletion of a page brings the measure down.
    first_deleted :
        (n : ℕ) (k : Str) (ks : List Str) (s : W)
        → ((client.delete_object k s).0 ≡ true → objects (client.delete_object k s).1 < n)
        → Below objects n (delete_objects client prefix (k ∷ ks) s)
    unfolding delete_objects
    first_deleted n k ks s lower = elim (Bool-cases (has_prefix k prefix)) [
      | inr out ↦ rw out (ground arith, λ went. absurd (ground arith))
      | inl inside ↦ rw inside (
          proceed-Below objects _ n _ (answered-Below objects n (client.delete_object k s) lower)
            (delete_objects-Below n ks))
    ]

    module _
        (deleting_listed : (w s : W) (p : ObjectPage) (k : Str) (ks : List Str)
          → client.list_objects prefix w ≡ (some p, s)
          → p.contents ≡ k ∷ ks
          → (client.delete_object k s).0 ≡ true
          → objects (client.delete_object k s).1 < objects s) where
      objects_page :
          (again : Effect W (Unit {0})) (n : ℕ)
          → ((s : W) → objects s < n → InTime (again s))
          → (w s : W) (p : ObjectPage) (ks : List Str) → client.list_objects prefix w ≡ (some p, s)
          → p.contents ≡ ks
          → objects s ≤ n
          → InTime (
              proceed (λ _. next_objects client prefix again p) (delete_objects client prefix ks s))
      unfolding delete_objects
      objects_page again n ends w s p [] listed e h = ground (arith, e)
      objects_page again n ends w s p (k ∷ ks) listed e h =
          proceed-InTime objects _ n _
            (first_deleted n k ks s
              (λ went. omega (arith, deleting_listed w s p k ks listed e went, h)))
            (λ t lower. rw e (ends t lower))

      objects_round-InTime :
          (again : Effect W (Unit {0})) (n : ℕ)
          → ((s : W) → objects s < n → InTime (again s))
          → (w : W) (r : Option ObjectPage × W) → client.list_objects prefix w ≡ r
          → objects w ≤ n
          → InTime (objects_round client prefix again r)
      objects_round-InTime again n ends w (none, s) e h = ground arith
      objects_round-InTime again n ends w (some p, s) e h =
          objects_page again n ends w s p p.contents e refl
            (omega (arith, ap (λ r. objects r.1) e, listing w, h))

      pub purge_objects-InTime :
          (n : ℕ) (w : W) → objects w < n → InTime (purge_objects client prefix n w)
      unfolding purge_objects
      purge_objects-InTime zero w h = absurd (omega (arith, h))
      purge_objects-InTime (suc n) w h =
          objects_round-InTime (purge_objects client prefix n) n (purge_objects-InTime n) w
            (client.list_objects prefix w) refl (omega (arith, h))

  module _ (versions : W → ℕ)
      (listing : (w : W) → versions (client.list_object_versions prefix w).1 ≤ versions w)
      (erasing : (v : Version) (w : W) → versions (client.delete_version v w).1 ≤ versions w) where
    erase_versions-Below :
        (n : ℕ) (vs : List Version) (w : W)
        → versions w < n
        → Below versions n (erase_versions client prefix vs w)
    unfolding erase_versions
    erase_versions-Below n [] w h = (ground arith, λ _. h)
    erase_versions-Below n (v ∷ vs) w h = elim (Bool-cases (has_prefix v.key prefix)) [
      | inr out ↦ rw out (ground arith, λ went. absurd (ground arith))
      | inl inside ↦ rw inside (
          proceed-Below versions _ n _
            (answered-Below versions n (client.delete_version v w)
              (λ _. omega (arith, erasing v w, h)))
            (erase_versions-Below n vs))
    ]

    first_erased :
        (n : ℕ) (v : Version) (vs : List Version) (s : W)
        → ((client.delete_version v s).0 ≡ true → versions (client.delete_version v s).1 < n)
        → Below versions n (erase_versions client prefix (v ∷ vs) s)
    unfolding erase_versions
    first_erased n v vs s lower = elim (Bool-cases (has_prefix v.key prefix)) [
      | inr out ↦ rw out (ground arith, λ went. absurd (ground arith))
      | inl inside ↦ rw inside (
          proceed-Below versions _ n _ (answered-Below versions n (client.delete_version v s) lower)
            (erase_versions-Below n vs))
    ]

    module _
        (erasing_listed : (w s : W) (p : VersionPage) (v : Version) (vs : List Version)
          → client.list_object_versions prefix w ≡ (page p, s)
          → p.versions ++ p.delete_markers ≡ v ∷ vs
          → (client.delete_version v s).0 ≡ true
          → versions (client.delete_version v s).1 < versions s) where
      module _ (again : Effect W (Unit {0})) (n : ℕ)
          (ends : (s : W) → versions s < n → InTime (again s)) where
        next_versions-InTime :
            (p : VersionPage) (s : W)
            → versions s < n
            → InTime (next_versions client prefix again p s)
        next_versions-InTime p s h = ground (arith, ends s h)

        versions_page :
            (w s : W) (p : VersionPage) (vs ms : List Version)
            → client.list_object_versions prefix w ≡ (page p, s)
            → p.versions ≡ vs
            → p.delete_markers ≡ ms
            → versions s ≤ n
            → InTime (
                proceed
                  (λ _ t.
                    proceed
                      (λ _. next_versions client prefix again p)
                      (erase_versions client prefix ms t))
                  (erase_versions client prefix vs s))
        versions_page w s p (v ∷ vs) ms listed e d h =
            proceed-InTime versions _ n _
              (first_erased n v vs s (λ went.
                omega
                  (arith, erasing_listed w s p v (vs ++ ms) listed (ground (arith, e, d)) went, h)))
              (λ t lower.
                proceed-InTime versions _ n _ (erase_versions-Below n ms t lower)
                  (next_versions-InTime p))
        versions_page w s p [] (m ∷ ms) listed e d h =
            unfold erase_versions in
            proceed-InTime versions _ n _
              (first_erased n m ms s (λ went.
                omega (arith, erasing_listed w s p m ms listed (ground (arith, e, d)) went, h)))
              (next_versions-InTime p)
        versions_page w s p [] [] listed e d h = unfold erase_versions in ground (arith, e, d)

        versions_round-InTime :
            (w : W) (r : Answer × W)
            → client.list_object_versions prefix w ≡ r
            → versions w ≤ n
            → InTime (versions_round client prefix again r)
        versions_round-InTime w (unsupported, s) e h = ground arith
        versions_round-InTime w (failed, s) e h = ground arith
        versions_round-InTime w (page p, s) e h =
            versions_page w s p p.versions p.delete_markers e refl refl
              (omega (arith, ap (λ r. versions r.1) e, listing w, h))

      pub purge_versions-InTime :
          (n : ℕ) (w : W) → versions w < n → InTime (purge_versions client prefix n w)
      unfolding purge_versions
      purge_versions-InTime zero w h = absurd (omega (arith, h))
      purge_versions-InTime (suc n) w h =
          versions_round-InTime (purge_versions client prefix n) n (purge_versions-InTime n) w
            (client.list_object_versions prefix w) refl (omega (arith, h))

  -- Let `versions` and `objects` be numbers that the listing calls and the deletions never raise, and
  -- that deleting the first entry of a listed page brings down: the versions and the current objects
  -- under the prefix. Then the loops of S3.PurgePrefix end within one round more than there are
  -- versions at the start, and objects after the first loop.
  pub purge_prefix-ends :
      (versions objects : W → ℕ)
      → ((w : W) → versions (client.list_object_versions prefix w).1 ≤ versions w)
      → ((v : Version) (w : W) → versions (client.delete_version v w).1 ≤ versions w)
      → ((w s : W) (p : VersionPage) (v : Version) (vs : List Version)
          → client.list_object_versions prefix w ≡ (page p, s)
          → p.versions ++ p.delete_markers ≡ v ∷ vs
          → (client.delete_version v s).0 ≡ true
          → versions (client.delete_version v s).1 < versions s)
      → ((w : W) → objects (client.list_objects prefix w).1 ≤ objects w)
      → ((k : Str) (w : W) → objects (client.delete_object k w).1 ≤ objects w)
      → ((w s : W) (p : ObjectPage) (k : Str) (ks : List Str)
          → client.list_objects prefix w ≡ (some p, s)
          → p.contents ≡ k ∷ ks
          → (client.delete_object k s).0 ≡ true
          → objects (client.delete_object k s).1 < objects s)
      → (ready : Bool) (n m : ℕ) (w : W) → versions w < n
      → objects (purge_versions client prefix n w).1 < m
      → (purge_prefix client prefix ready n m w).0 ≢ err out_of_fuel
  unfolding purge_prefix
  purge_prefix-ends versions objects list_v erase erase_listed list_o delete delete_listed ready n m
        w h k =
      elim (Bool-cases (not ready || not (valid_purge_prefix prefix))) [
        | inl refused ↦ rw refused (ground arith)
        | inr accepted ↦ rw accepted (
            proceed-InTime objects (purge_objects client prefix m) m
              (purge_versions client prefix n w)
              (purge_versions-InTime versions list_v erase erase_listed n w h, λ _. k)
              (purge_objects-InTime objects list_o delete delete_listed m))
      ]
