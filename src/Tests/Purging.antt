-- ===== src/Tests/Purging.antt =====
-- A versioned store that answers with one entry a page, and S3.PurgePrefix on it.
use rosemary_virsree.Prelude.{
  ◌≡◌, ◌<◌, refl, ap, sym, subst, Bool, true, false, ◌&&◌, Option, none, some, List, [], ◌∷◌, ◌++◌,
  arith, inl, inr, Bool-cases, ◌∙◌, ◌≢◌, ◌↔◌,
}
use rosemary_virsree.Prelude.Text.{Str, codes, str_eq, str_eq_iff, str_eq_refl, has_prefix}
use rosemary_virsree.Prelude.Table.{find, any, remove, count}
use rosemary_virsree.Prelude.Table.Rows.{count-remove-le, find-remove_ne}
use rosemary_virsree.Prelude.Results.{ok, err, out_of_fuel}
use rosemary_virsree.Provider.Purge.{
  Version, VersionPage, ObjectPage, Answer, page, Client, purge_prefix, purge_versions,
  erase_versions, valid_purge_prefix,
}
use rosemary_virsree.Provider.Purge.Prefix.{IsRoot, IsSegment, folder, valid_purge_prefix_iff}
use rosemary_virsree.Provider.Purge.Outside.{purge_prefix-outside}
use rosemary_virsree.Provider.Purge.Refines.{purged, purge_prefix-purged}
use rosemary_virsree.Provider.Purge.Ends.{purge_prefix-ends}

abbrev Shelf : Type 0
Shelf = List Version

abbrev inside : Str → Version → Bool
inside p v = has_prefix v.key p

abbrev same_version : Version → Version → Bool
same_version v u = str_eq u.key v.key && str_eq u.version_id v.version_id

abbrev at_key : Str → Version → Bool
at_key k u = str_eq u.key k

abbrev singleton : Option Version → List Version
singleton none = []
singleton (some v) = v ∷ []

abbrev keys : Option Version → List Str
keys none = []
keys (some v) = v.key ∷ []

abbrev shelf : Client Shelf
shelf = record {
  list_object_versions = λ p w. (
    page (record {
      versions = singleton (find (inside p) w);
      delete_markers = [];
      truncated = any (inside p) w;
    }),
    w,
  );
  delete_version = λ v w. (true, remove (same_version v) w);
  list_objects =
      λ p w. (some (record { contents = keys (find (inside p) w); truncated = false }), w);
  delete_object = λ k w. (true, remove (at_key k) w);
}

abbrev content : Shelf → Str → Option Version
content w k = find (at_key k) w

abbrev prefix : Str
prefix = codes "rosemary/bkt_a/"

abbrev version : Str → Str → Version
version k i = record { key = k; version_id = i }

abbrev full : Shelf
full =
    version (codes "rosemary/bkt_a/x") (codes "1")
    ∷ version (codes "rosemary/bkt_b/y") (codes "1")
    ∷ version (codes "rosemary/bkt_a/x") (codes "2")
    ∷ []

other_version : (v u : Version) → same_version v u ≡ true → u.key ≡ v.key
other_version v u h = (str_eq_iff u.key v.key).0 (ground arith)

other_key :
    (q : Version → Bool) (j key : Str) (w : Shelf)
    → ((u : Version) → q u ≡ true → u.key ≡ j)
    → j ≢ key
    → find (at_key key) (remove q w) ≡ find (at_key key) w
other_key q j key w keyed ne =
    find-remove_ne (at_key key) q
      (λ u at. elim (Bool-cases (q u)) [
        | inr keeps ↦ keeps
        | inl drops ↦ absurd (ne (sym (keyed u drops) ∙ (str_eq_iff u.key key).0 at))
      ])
      w

listed_fewer :
    (p : Str) (q : Version → Bool) (w : Shelf) (v : Version)
    → find (inside p) w ≡ some v
    → q v ≡ true
    → count (inside p) (remove q w) < count (inside p) w
unfolding find count remove
listed_fewer p q [] v e h = ground arith
listed_fewer p q (u ∷ w) v e h =
    ground (arith, listed_fewer p q w v, count-remove-le (inside p) q w)

none-inside :
    (p key : Str) (w : Shelf)
    → find (inside p) w ≡ none
    → has_prefix key p ≡ true
    → find (at_key key) w ≡ none
unfolding find
none-inside p key [] e h = refl
none-inside p key (u ∷ w) e h = ground (arith, none-inside p key w, str_eq_iff u.key key)

abbrev entries : Answer → List Version
entries (page p) = p.versions ++ p.delete_markers
entries _ = []

abbrev contents : Option ObjectPage → List Str
contents none = []
contents (some p) = p.contents

first_entry :
    (o : Option Version) (v : Version) (vs : List Version) → singleton o ++ [] ≡ v ∷ vs → o ≡ some v
first_entry none v vs h = absurd (ground arith)
first_entry (some u) v vs h = ground arith

first_key :
    (o : Option Version) (k : Str) (ks : List Str)
    → keys o ≡ k ∷ ks
    → (u : Version) × (o ≡ some u) × (u.key ≡ k)
first_key none k ks h = absurd (ground arith)
first_key (some u) k ks h = (u, refl, ground arith)

no_key : (o : Option Version) → keys o ≡ [] → o ≡ none
no_key none h = refl
no_key (some u) h = absurd (ground arith)

erased_fewer :
    (w s : Shelf) (p : VersionPage) (v : Version) (vs : List Version)
    → shelf.list_object_versions prefix w ≡ (page p, s)
    → p.versions ++ p.delete_markers ≡ v ∷ vs
    → (shelf.delete_version v s).0 ≡ true
    → count (inside prefix) (shelf.delete_version v s).1 < count (inside prefix) s
erased_fewer w s p v vs listed first went =
    subst (λ t. count (inside prefix) (remove (same_version v) t) < count (inside prefix) t)
      (ap (λ r. r.1) listed)
      (listed_fewer prefix (same_version v) w v
        (first_entry (find (inside prefix) w) v vs (ap (λ r. entries r.0) listed ∙ first))
        (ground (arith, str_eq_refl v.key, str_eq_refl v.version_id)))

deleted_fewer :
    (w s : Shelf) (p : ObjectPage) (k : Str) (ks : List Str)
    → shelf.list_objects prefix w ≡ (some p, s)
    → p.contents ≡ k ∷ ks
    → (shelf.delete_object k s).0 ≡ true
    → count (inside prefix) (shelf.delete_object k s).1 < count (inside prefix) s
deleted_fewer w s p k ks listed first went =
    let (u, found, same) =
      first_key (find (inside prefix) w) k ks (ap (λ r. contents r.0) listed ∙ first) in
    subst (λ t. count (inside prefix) (remove (at_key k) t) < count (inside prefix) t)
      (ap (λ r. r.1) listed) (listed_fewer prefix (at_key k) w u found (rw same (str_eq_refl k)))

all_listed :
    (w s : Shelf) (p : ObjectPage) (key : Str)
    → shelf.list_objects prefix w ≡ (some p, s)
    → p.contents ≡ []
    → p.truncated ≡ false
    → has_prefix key prefix ≡ true
    → content s key ≡ none
all_listed w s p key listed empty last within =
    subst (λ t. content t key ≡ none) (ap (λ r. r.1) listed)
      (none-inside prefix key w
        (no_key (find (inside prefix) w) (ap (λ r. contents r.0) listed ∙ empty)) within)

-- The key of the other bucket, and a prefix that names no bucket.
valid_purge_prefix_iff_example :
    (valid_purge_prefix prefix ≡ true)
    ↔ ((root : Str) × (id : Str) × IsRoot root × IsSegment id × (prefix ≡ folder root id))
valid_purge_prefix_iff_example = valid_purge_prefix_iff prefix

root_refused : valid_purge_prefix (codes "rosemary/") ≡ false
unfolding valid_purge_prefix
root_refused = refl

purge_prefix-outside_example :
    content (purge_prefix shelf prefix true 3 3 full).1 (codes "rosemary/bkt_b/y")
    ≡ content full (codes "rosemary/bkt_b/y")
unfolding has_prefix
purge_prefix-outside_example =
    purge_prefix-outside shelf prefix content (λ key w. refl)
      (λ v key w ne. other_key (same_version v) v.key key w (other_version v) ne) (λ key w. refl)
      (λ k key w ne. other_key (at_key k) k key w (λ u. (str_eq_iff u.key k).0) ne) true 3 3 full
      (codes "rosemary/bkt_b/y") refl

run_full :
    purge_prefix shelf prefix true 3 3 full
    ≡ (ok tt, version (codes "rosemary/bkt_b/y") (codes "1") ∷ [])
unfolding purge_prefix find remove any has_prefix str_eq valid_purge_prefix
run_full = refl

purge_prefix-purged_example :
    content (version (codes "rosemary/bkt_b/y") (codes "1") ∷ []) (codes "rosemary/bkt_a/x")
    ≡ purged prefix (content full) (codes "rosemary/bkt_a/x")
purge_prefix-purged_example =
    purge_prefix-purged shelf prefix content all_listed (λ key w. refl)
      (λ v key w ne. other_key (same_version v) v.key key w (other_version v) ne) (λ key w. refl)
      (λ k key w ne. other_key (at_key k) k key w (λ u. (str_eq_iff u.key k).0) ne) true 3 3 full
      (version (codes "rosemary/bkt_b/y") (codes "1") ∷ []) (codes "rosemary/bkt_a/x") run_full

fewer_versions : count (inside prefix) full < 3
unfolding count has_prefix
fewer_versions = omega arith

fewer_objects : count (inside prefix) (purge_versions shelf prefix 3 full).1 < 1
unfolding purge_versions erase_versions count find remove any has_prefix str_eq
fewer_objects = omega arith

purge_prefix-ends_example : (purge_prefix shelf prefix true 3 1 full).0 ≢ err out_of_fuel
purge_prefix-ends_example =
    purge_prefix-ends shelf prefix (count (inside prefix)) (count (inside prefix))
      (λ w. omega arith) (λ v w. count-remove-le (inside prefix) (same_version v) w) erased_fewer
      (λ w. omega arith) (λ k w. count-remove-le (inside prefix) (at_key k) w) deleted_fewer true 3
      1 full fewer_versions fewer_objects
