-- ===== src/Service/Keys/Permissions.antt =====
-- The permissions that NewKey stores.
use rosemary_virsree.Prelude.{
  ◌≡◌, refl, ap, ◌∙◌, inl, inr, Bool, true, false, not, ◌||◌, List, [], ◌∷◌, ◌++◌, arith,
  Bool-cases, if◌then◌else◌,
}
use rosemary_virsree.Prelude.Text.{Str, codes, str_eq, str_eq_iff, str_eq_comm, str_eq_refl}
use rosemary_virsree.Prelude.Split.{split, join, has_byte, split-join, split_nonempty}
use rosemary_virsree.Prelude.Table.{any}
use rosemary_virsree.Prelude.Results.{ok, Result-cases}
use rosemary_virsree.Service.Keys.{
  comma, is_permission, has, normalize, normal_permissions, all_permissions,
}

abbrev pub has_comma : Str → Bool
has_comma = has_byte comma

any-append : (p : Str → Bool) (xs ys : List Str) → any p (xs ++ ys) ≡ (any p xs || any p ys)
unfolding any
any-append p [] ys = refl
any-append p (x ∷ xs) ys = ground (arith, any-append p xs ys)

-- A word that has been seen adds nothing.
seen_again :
    (t v : Str) (seen : List Str)
    → any (str_eq t) seen ≡ true
    → str_eq t v ≡ true
    → any (λ q. str_eq q v) seen ≡ true
unfolding any
seen_again t v [] h k = ground arith
seen_again t v (q ∷ seen) h k = ground (arith, seen_again t v seen, str_eq_iff t v, str_eq_comm t q)

known_plain : (p : Str) → is_permission p ≡ true → has_comma p ≡ false
unfolding any
known_plain p h = elim (Bool-cases (str_eq p (codes "read"))) [
  | inl e ↦
      let same : p ≡ codes "read" = ground (arith, str_eq_iff p (codes "read")) in rw same refl
  | inr not_a ↦ elim (Bool-cases (str_eq p (codes "write"))) [
    | inl e ↦
        let same : p ≡ codes "write" = ground (arith, str_eq_iff p (codes "write")) in rw same refl
    | inr not_b ↦ elim (Bool-cases (str_eq p (codes "delete"))) [
      | inl e ↦
          let same : p ≡ codes "delete" = ground (arith, str_eq_iff p (codes "delete")) in
          rw same refl
      | inr not_c ↦
          let last : str_eq p (codes "manage") ≡ true = cc (h, not_a, not_b, not_c) in
          let same : p ≡ codes "manage" = ground (arith, str_eq_iff p (codes "manage")) in
          rw same refl
    ]
  ]
]

known_words :
    (ps : List Str) → any (λ q. not (is_permission q)) ps ≡ false → any has_comma ps ≡ false
unfolding any
known_words [] h = refl
known_words (p ∷ ps) h =
    let known : is_permission p ≡ true = ground arith in
    let plain = known_plain p known in
    let rest : any has_comma ps ≡ false = known_words ps (ground arith) in
    ground (arith, plain, rest)

module _ (trim_space to_lower : Str → Str) where
  -- A word's trimmed form is `v`.
  abbrev pub names : Str → Str → Bool
  names v p = str_eq (trim_space p) v

  -- The loop collects exactly the trimmed words.
  normalize-any :
      (v : Str) (seen ps out : List Str)
      → normalize trim_space to_lower seen ps ≡ ok out
      → any (λ q. str_eq q v) out ≡ (any (λ q. str_eq q v) seen || any (names v) ps)
  unfolding normalize any
  normalize-any v seen [] out h = ground arith
  normalize-any v seen (p ∷ ps) out h = elim (Bool-cases (any (str_eq (trim_space p)) seen)) [
    | inl old ↦ ground (arith, normalize-any v seen ps out, seen_again (trim_space p) v seen old)
    | inr new ↦ ground (
      arith,
      normalize-any v (seen ++ trim_space p ∷ []) ps out,
      any-append (λ q. str_eq q v) seen (trim_space p ∷ []),
    )
  ]

  normalize-known :
      (seen ps out : List Str)
      → normalize trim_space to_lower seen ps ≡ ok out
      → any (λ q. not (is_permission q)) seen ≡ false
      → any (λ q. not (is_permission q)) out ≡ false
  unfolding normalize any
  normalize-known seen [] out h k = ground arith
  normalize-known seen (p ∷ ps) out h k = elim (Bool-cases (any (str_eq (trim_space p)) seen)) [
    | inl old ↦ ground (arith, normalize-known seen ps out)
    | inr new ↦ ground (
      arith,
      normalize-known (seen ++ trim_space p ∷ []) ps out,
      any-append (λ q. not (is_permission q)) seen (trim_space p ∷ []),
    )
  ]

  module _ (trims : (p : Str) → is_permission p ≡ true → trim_space p ≡ p) where
    known_names :
        (v : Str) (ps : List Str)
        → any (λ q. not (is_permission q)) ps ≡ false
        → any (names v) ps ≡ any (λ q. str_eq q v) ps
    unfolding any
    known_names v [] h = refl
    known_names v (p ∷ ps) h =
        let known : is_permission p ≡ true = ground arith in
        let rest : any (names v) ps ≡ any (λ q. str_eq q v) ps = known_names v ps (ground arith) in
        rw (trims p known, rest) refl

    granted :
        (v t : Str) (ws ps : List Str)
        → any (λ q. not (is_permission q)) ws ≡ false
        → any (λ q. str_eq q t) ws ≡ true
        → any (λ q. str_eq q v) ws ≡ any (names v) ps
        → any (names v) (split comma (join comma ws)) ≡ any (names v) ps
    unfolding any
    granted v t [] ps known some_word same = absurd (ground arith)
    granted v t (w ∷ ws) ps known some_word same =
        ap (any (names v)) (split-join comma w ws (known_words (w ∷ ws) known))
        ∙ (known_names v (w ∷ ws) known ∙ same)

    -- Where strings.TrimSpace leaves the four permissions as they are, the permissions that NewKey
    -- stores grant exactly what the given ones grant, and the default ones where none are given.
    pub has-normal_permissions :
        (perms out v : Str)
        → normal_permissions trim_space to_lower perms ≡ ok out
        → has trim_space to_lower out v
          ≡ has trim_space to_lower (if str_eq perms [] then all_permissions else perms) v
    unfolding normal_permissions has
    has-normal_permissions perms out v h =
        let given : Str = if str_eq perms [] then all_permissions else perms in
        elim (Result-cases (normalize trim_space to_lower [] (split comma given))) [
          | inr (e, refused) ↦ absurd (ground arith)
          | inl (ws, collected) ↦
              let stored : join comma ws ≡ out = ground arith in
              let (w, rest, shape) = split_nonempty comma given in
              let known =
                normalize-known [] (split comma given) ws collected (unfold any in refl) in
              let same = normalize-any v [] (split comma given) ws collected in
              let first = normalize-any (trim_space w) [] (split comma given) ws collected in
              let some_word : any (λ q. str_eq q (trim_space w)) ws ≡ true =
                unfold any in ground (arith, shape, first, str_eq_refl (trim_space w)) in
              let same' : any (λ q. str_eq q v) ws ≡ any (names v) (split comma given) =
                unfold any in ground (arith, same) in
              rw (← stored) (granted v (trim_space w) ws (split comma given) known some_word same')
        ]
