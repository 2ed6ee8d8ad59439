-- ===== src/Console/IdToken/Accepts.antt =====
-- verifyIDToken: which tokens it accepts.
use rosemary_virsree.Prelude.{
  ℕ, ◌≤◌, ◌≡◌, refl, ◌∙◌, Bool, true, false, Option, none, some, List, [], ◌∷◌, ◌++◌, arith, inl,
  inr, ◌⊎◌, Bool-cases, Option-cases,
}
use rosemary_virsree.Prelude.Text.{Str, codes, str_eq, str_eq_iff}
use rosemary_virsree.Prelude.Table.{find}
use rosemary_virsree.Prelude.Split.{split}
use rosemary_virsree.Prelude.Results.{ok, Result-cases, bad_metadata, bad_key_set}
use rosemary_virsree.Console.Times.{unix, clock, add_minute, after}
use rosemary_virsree.Console.IdToken.{
  Header, Jwk, Claims, PublicKey, Provider, trim_slashes, min_exponent, min_modulus, strong,
  is_candidate, usable_key, select_key, audience_contains, is_zero, three_parts, fetched, decoded,
  signing_key, check_claims, verify_id_token,
}

strong-bounds :
    (n e : Option Str) (key : PublicKey)
    → strong n e ≡ some key
    → (min_modulus ≤ key.n) × (min_exponent ≤ key.e)
strong-bounds none e key h = absurd (ground arith)
strong-bounds (some n) none key h = absurd (ground arith)
strong-bounds (some n) (some e) key h = (ground arith, ground arith)

abbrev pub is_some : {A : Type 0} → Option A → Bool
is_some none = false
is_some (some a) = true

module _ (idp : Provider) where
  usable_key-bounds :
      (kid : Str) (k : Jwk) (key : PublicKey)
      → usable_key idp kid k ≡ some key
      → (is_candidate kid k ≡ true) × (min_modulus ≤ key.n) × (min_exponent ≤ key.e)
  unfolding usable_key
  usable_key-bounds kid k key h = elim (Bool-cases (is_candidate kid k)) [
    | inr other ↦ absurd (ground (arith, other))
    | inl candidate ↦
        let bounds =
          strong-bounds (idp.decode k.modulus) (idp.decode k.exponent) key
            (ground (arith, candidate)) in
        (candidate, bounds.0, bounds.1)
  ]

  -- The loop over a key set returns the key of its first usable entry: one with the token's key id, for
  -- RS256 signatures, whose modulus has at least 2,048 bits and whose exponent is at least 3.
  pub select_key-first :
      (kid : Str) (ks : List Jwk) (key : PublicKey)
      → select_key idp kid ks ≡ some key
      → (k : Jwk) × (find (λ j. is_some (usable_key idp kid j)) ks ≡ some k)
        × (usable_key idp kid k ≡ some key)
        × (is_candidate kid k ≡ true)
        × (min_modulus ≤ key.n)
        × (min_exponent ≤ key.e)
  unfolding select_key find
  select_key-first kid [] key h = absurd (ground arith)
  select_key-first kid (k ∷ ks) key h = elim (Option-cases (usable_key idp kid k)) [
    | inr (found, usable) ↦
        let same : usable_key idp kid k ≡ some key = ground (arith, h, usable) in
        let bounds = usable_key-bounds kid k key same in
        (k, rw same refl, same, bounds.0, bounds.1, bounds.2)
    | inl skipped ↦
        let (j, first, usable, candidate, wide, odd) =
          select_key-first kid ks key (ground (arith, h, skipped)) in
        (j, rw skipped first, usable, candidate, wide, odd)
  ]

  signing_key-bounds :
      (issuer kid : Str) (key : PublicKey)
      → signing_key idp issuer kid ≡ ok key
      → (min_modulus ≤ key.n) × (min_exponent ≤ key.e)
  unfolding signing_key
  signing_key-bounds issuer kid key h =
      let address = trim_slashes issuer ++ codes "/.well-known/openid-configuration" in
      elim (Result-cases (fetched (idp.metadata address) bad_metadata)) [
        | inr (e, unread) ↦ absurd (ground (arith, h, unread))
        | inl (meta, read) ↦ elim (Result-cases (fetched (idp.key_set meta.jwks_uri) bad_key_set)) [
          | inr (e, unknown) ↦ absurd (ground (arith, h, read, unknown))
          | inl (keys, known) ↦ elim (Option-cases (select_key idp kid keys)) [
            | inl unusable ↦ absurd (ground (arith, h, read, known, unusable))
            | inr (k, selected) ↦
                let same : some k ≡ some key = ground (arith, h, read, known, selected) in
                let (j, first, usable, candidate, wide, odd) =
                  select_key-first kid keys key (selected ∙ same) in
                (wide, odd)
          ]
        ]
      ]

  -- The token of these parts carries these claims, signed with a usable key of the issuer's key set.
  abbrev pub Signed : Str → Str → Claims → Type 0
  Signed raw issuer c =
      (parts : Str × Str × Str) × (header : Header) × (key : PublicKey) × (signature : Str)
      × (three_parts (split 46 raw) ≡ some parts)
      × (decoded idp.header (idp.decode parts.0) ≡ some header)
      × (header.algorithm ≡ codes "RS256")
      × (signing_key idp issuer header.key_id ≡ ok key)
      × (min_modulus ≤ key.n)
      × (min_exponent ≤ key.e)
      × (idp.decode parts.2 ≡ some signature)
      × (idp.verifies key (parts.0 ++ 46 ∷ parts.1) signature ≡ true)
      × (decoded idp.claims (idp.decode parts.1) ≡ some c)

  -- The claims are the issuer's, for this client and this nonce, and their times are in order.
  abbrev pub Fitting : ℕ → Str → Str → Str → Claims → Type 0
  Fitting now issuer client nonce c =
      (trim_slashes c.issuer ≡ trim_slashes issuer)
      × (str_eq c.subject [] ≡ false)
      × (c.nonce ≡ nonce)
      × (audience_contains c.audience client ≡ true)
      × (is_zero c.expires ≡ false)
      × (is_zero c.issued_at ≡ false)
      × (after (clock now) (add_minute (unix c.expires)) ≡ false)
      × (after (unix c.issued_at) (add_minute (clock now)) ≡ false)
      × ((is_zero c.not_before ≡ true)
          ⊎ (after (unix c.not_before) (add_minute (clock now)) ≡ false))

  check_claims-Fitting :
      (now : ℕ) (issuer client nonce sub : Str) (c : Claims)
      → check_claims now issuer client nonce c ≡ ok sub
      → (c.subject ≡ sub) × Fitting now issuer client nonce c
  unfolding check_claims
  check_claims-Fitting now issuer client nonce sub c h = (
    ground arith,
    (
      (str_eq_iff (trim_slashes c.issuer) (trim_slashes issuer)).0 (ground arith),
      ground arith,
      (str_eq_iff c.nonce nonce).0 (ground arith),
      ground arith,
      ground arith,
      ground arith,
      ground arith,
      ground arith,
      elim (Bool-cases (is_zero c.not_before)) [
        | inl unset ↦ inl unset
        | inr set ↦ inr (ground (arith, h, set))
      ],
    ),
  )

  -- A token that verifyIDToken accepts is signed with RS256 under a key of the issuer's key set that has
  -- at least 2,048 bits and an exponent of at least 3. Its claims name the configured issuer, the
  -- client, the nonce of the sign-in and the subject that is returned, which is not empty. They have an
  -- expiry and a time of issue; give or take a minute, the expiry is not past, and neither the time of
  -- issue nor the start of validity, where there is one, lies ahead.
  pub verify_id_token_accepts :
      (now : ℕ) (raw issuer client nonce sub : Str)
      → verify_id_token idp now raw issuer client nonce ≡ ok sub
      → (c : Claims) × Signed raw issuer c × (c.subject ≡ sub) × Fitting now issuer client nonce c
  unfolding verify_id_token
  verify_id_token_accepts now raw issuer client nonce sub h =
      elim (Option-cases (three_parts (split 46 raw))) [
        | inl malformed ↦ absurd (ground arith)
        | inr (parts, cut) ↦ elim (Option-cases (decoded idp.header (idp.decode parts.0))) [
          | inl unread ↦ absurd (ground arith)
          | inr (header, read) ↦ elim (Result-cases (signing_key idp issuer header.key_id)) [
            | inr (e, unknown) ↦ absurd (ground arith)
            | inl (key, known) ↦ elim (Option-cases (idp.decode parts.2)) [
              | inl unsigned ↦ absurd (ground arith)
              | inr (signature, signed) ↦
                  elim (Option-cases (decoded idp.claims (idp.decode parts.1))) [
                    | inl unclaimed ↦ absurd (ground arith)
                    | inr (c, claimed) ↦
                        let strength = signing_key-bounds issuer header.key_id key known in
                        let fitting =
                          check_claims-Fitting now issuer client nonce sub c (ground arith) in
                        (
                          c,
                          (
                            parts,
                            header,
                            key,
                            signature,
                            cut,
                            read,
                            (str_eq_iff header.algorithm (codes "RS256")).0 (ground arith),
                            known,
                            strength.0,
                            strength.1,
                            signed,
                            ground arith,
                            claimed,
                          ),
                          fitting.0,
                          fitting.1,
                        )
                  ]
            ]
          ]
        ]
      ]
