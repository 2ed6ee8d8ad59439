-- ===== src/Service/Uploads/Namespaces.antt =====
-- The physical keys of a bucket lie in its own namespaces.
use rosemary_virsree.Prelude.{ℕ, ◌≡◌, refl, ap, ◌∙◌, Bool, false, [], ◌∷◌, ◌++◌, arith, ◌==◌}
use rosemary_virsree.Prelude.Text.{Str, codes, str_eq, has_prefix, trim_prefix}
use rosemary_virsree.Prelude.Table.{any}
use rosemary_virsree.Service.Uploads.{
  namespace, staging_namespace, physical, staging_physical, decimal, slash,
}

-- A bucket's id has no slash: the code draws it from hexadecimal digits.
abbrev pub has_slash : Str → Bool
has_slash = any (λ c. c == 47)

-- A slash ends the shorter of two ids.
id_prefix :
    (i j s : Str)
    → has_slash i ≡ false
    → has_slash j ≡ false
    → has_prefix (i ++ 47 ∷ s) (j ++ 47 ∷ []) ≡ str_eq i j
unfolding has_prefix str_eq any
id_prefix [] [] s hi hj = refl
id_prefix [] (b ∷ j) s hi hj = ground arith
id_prefix (a ∷ i) [] s hi hj = ground arith
id_prefix (a ∷ i) (b ∷ j) s hi hj = ground (arith, id_prefix i j s)

append_assoc : (s t u : Str) → (s ++ t) ++ u ≡ s ++ (t ++ u)
append_assoc [] t u = refl
append_assoc (a ∷ s) t u = ground (arith, append_assoc s t u)

-- For bucket ids without a slash, the final key of an object lies under the prefix that the cleanup
-- of a bucket purges exactly if the object is that bucket's, and a staged key likewise.
pub physical-namespace :
    (i j key upload : Str) (generation : ℕ)
    → has_slash i ≡ false
    → has_slash j ≡ false
    → (has_prefix (physical i key generation) (namespace j) ≡ str_eq i j)
      × (has_prefix (staging_physical i upload key) (staging_namespace j) ≡ str_eq i j)
unfolding physical staging_physical has_prefix
physical-namespace i j key upload generation hi hj =
    let rest : Str = codes "g" ++ (decimal generation ++ (slash ++ trim_prefix key slash)) in
    let staged : Str = upload ++ (slash ++ trim_prefix key slash) in
    (
      ap (λ s. has_prefix s (j ++ slash)) (append_assoc i slash rest) ∙ id_prefix i j rest hi hj,
      ap (λ s. has_prefix s (j ++ slash)) (append_assoc i slash staged)
          ∙ id_prefix i j staged hi hj,
    )
