-- ===== src/Provider/Purge/Prefix.antt =====
-- The prefixes that S3.PurgePrefix accepts.
use rosemary_virsree.Prelude.{
  ◌≡◌, refl, ap, sym, ◌∙◌, subst, ◌↔◌, ◌⊎◌, inl, inr, true, false, ◌||◌, List, [], ◌∷◌, ◌++◌, arith,
  Bool-cases,
}
use rosemary_virsree.Prelude.Text.{Str, codes, str_eq, str_eq_iff}
use rosemary_virsree.Prelude.Table.{any}
use rosemary_virsree.Prelude.Split.{split, join, has_byte, split-word, join-split, split_plain}
use rosemary_virsree.Provider.Purge.{slash, valid_parts, valid_purge_prefix}

-- `root/id/`
abbrev pub folder : Str → Str → Str
folder root id = root ++ slash ∷ (id ++ slash ∷ [])

-- One of the two roots of bucket files.
abbrev pub IsRoot : Str → Type 0
IsRoot root = (root ≡ codes "rosemary") ⊎ (root ≡ codes "rosemary-staging")

-- One path segment that stays below its root.
abbrev pub IsSegment : Str → Type 0
IsSegment id =
    (has_byte slash id ≡ false)
    × (str_eq id [] ≡ false)
    × (str_eq id (codes ".") ≡ false)
    × (str_eq id (codes "..") ≡ false)

root_plain : (root : Str) → IsRoot root → has_byte slash root ≡ false
root_plain root (inl e) = rw e (unfold any in refl)
root_plain root (inr e) = rw e (unfold any in refl)

split-folder :
    (root id : Str)
    → IsRoot root
    → IsSegment id
    → split slash (folder root id) ≡ root ∷ id ∷ [] ∷ []
split-folder root id at_root segment =
    split-word slash root (id ++ slash ∷ []) (root_plain root at_root)
    ∙ ap (λ r. root ∷ r)
        (split-word slash id [] segment.0 ∙ ap (λ r. id ∷ r) (unfold split in refl))

valid_folder :
    (root id : Str) → IsRoot root → IsSegment id → valid_purge_prefix (folder root id) ≡ true
unfolding valid_purge_prefix str_eq
valid_folder root id (inl e) segment =
    ap valid_parts (split-folder root id (inl e) segment) ∙ ground (arith, e)
valid_folder root id (inr e) segment =
    ap valid_parts (split-folder root id (inr e) segment) ∙ ground (arith, e)

root_known :
    (root : Str)
    → (str_eq root (codes "rosemary") || str_eq root (codes "rosemary-staging")) ≡ true
    → IsRoot root
root_known root h = elim (Bool-cases (str_eq root (codes "rosemary"))) [
  | inl e ↦ inl ((str_eq_iff root (codes "rosemary")).0 e)
  | inr ne ↦ inr ((str_eq_iff root (codes "rosemary-staging")).0 (ground arith))
]

three_parts :
    (p : Str) (parts : List Str)
    → split slash p ≡ parts
    → valid_parts parts ≡ true
    → (root : Str) × (id : Str) × IsRoot root × IsSegment id × (p ≡ folder root id)
three_parts p [] e h = absurd (ground arith)
three_parts p (a ∷ []) e h = absurd (ground arith)
three_parts p (a ∷ b ∷ []) e h = absurd (ground arith)
three_parts p (a ∷ b ∷ c ∷ d ∷ rest) e h = absurd (ground arith)
three_parts p (root ∷ id ∷ (c ∷ rest) ∷ []) e h = absurd (unfold str_eq in ground arith)
three_parts p (root ∷ id ∷ [] ∷ []) e h =
    let plain : any (has_byte slash) (root ∷ id ∷ [] ∷ []) ≡ false =
      subst (λ ws. any (has_byte slash) ws ≡ false) e (split_plain slash p) in
    let joined : p ≡ folder root id =
      sym (join-split slash p) ∙ ap (join slash) e ∙ (unfold join in refl) in
    let at_root : IsRoot root = root_known root (ground arith) in
    (
      root,
      id,
      at_root,
      (unfold any in ground arith, ground arith, ground arith, ground arith),
      joined,
    )

-- PurgePrefix accepts exactly the prefixes `rosemary/<id>/` and `rosemary-staging/<id>/` whose id is one
-- path segment, not empty and neither `.` nor `..`.
pub valid_purge_prefix_iff :
    (p : Str)
    → (valid_purge_prefix p ≡ true)
      ↔ ((root : Str) × (id : Str) × IsRoot root × IsSegment id × (p ≡ folder root id))
unfolding valid_purge_prefix
valid_purge_prefix_iff p = (
  three_parts p (split slash p) refl,
  λ (root, id, at_root, segment, e). rw e (valid_folder root id at_root segment),
)
