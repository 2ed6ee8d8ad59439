-- ===== src/Service/Storage/Prepared.antt =====
-- The inputs that prepare accepts.
use rosemary_virsree.Prelude.{
  ◌≡◌, ◌⊎◌, refl, ap, sym, ◌∙◌, subst, Bool, true, false, Option, [], arith, inl, inr, Bool-cases,
}
use rosemary_virsree.Prelude.Int.{pos, ltb_ℤ}
use rosemary_virsree.Prelude.Text.{Str, str_eq, str_eq_iff}
use rosemary_virsree.Prelude.Results.{ok, Result-cases}
use rosemary_virsree.Service.Storage.Endpoints.{Libraries}
use rosemary_virsree.Service.Storage.{
  Input, StoredConfig, s3, webdav, sigv4, bitiful, is_empty, with_old_secrets, trimmed,
  with_endpoints, with_s3_defaults, check_fields, known_kind, without_unused_key, normalized,
  stored_config, prepare,
}

-- The fields of an S3 source, with no CDN or one of the two modes, and a key where the mode needs one.
abbrev pub S3Fields : Input → Type 0
S3Fields i =
    (i.kind ≡ s3)
    × (is_empty i.region ≡ false)
    × (is_empty i.bucket ≡ false)
    × (is_empty i.access_key ≡ false)
    × (is_empty i.secret_key ≡ false)
    × (is_empty i.cdn_endpoint ≡ false
        → (str_eq i.cdn_mode sigv4 ≡ true)
          ⊎ ((str_eq i.cdn_mode bitiful ≡ true) × (is_empty i.cdn_auth_key ≡ false)))

abbrev pub WebdavFields : Input → Type 0
WebdavFields i =
    (i.kind ≡ webdav)
    × (is_empty i.endpoint ≡ false)
    × (is_empty i.webdav_username ≡ false)
    × (is_empty i.webdav_password ≡ false)

abbrev pub Valid : Input → Type 0
Valid i =
    (is_empty i.name ≡ false)
    × ((i.capacity_unlimited ≡ true) ⊎ (ltb_ℤ i.capacity_bytes (pos 1) ≡ false))
    × (S3Fields i ⊎ WebdavFields i)
    × (str_eq i.cdn_mode bitiful ≡ false → i.cdn_auth_key ≡ [])

module _ (lib : Libraries) where
  cdn_fields :
      (i : Input)
      → check_fields lib i ≡ ok tt
      → str_eq i.kind s3 ≡ true
      → is_empty i.cdn_endpoint ≡ false
      → (str_eq i.cdn_mode sigv4 ≡ true)
        ⊎ ((str_eq i.cdn_mode bitiful ≡ true) × (is_empty i.cdn_auth_key ≡ false))
  unfolding check_fields
  cdn_fields i checked is_s3 cdn = elim (Bool-cases (str_eq i.cdn_mode sigv4)) [
    | inl plain ↦ inl plain
    | inr other ↦
        inr (ground (arith, checked, is_s3, cdn, other), ground (arith, checked, is_s3, cdn, other))
  ]

  check_fields-Valid :
      (i : Input)
      → check_fields lib i ≡ ok tt
      → known_kind lib i.kind ≡ ok tt
      → (is_empty i.name ≡ false)
        × ((i.capacity_unlimited ≡ true) ⊎ (ltb_ℤ i.capacity_bytes (pos 1) ≡ false))
        × (S3Fields i ⊎ WebdavFields i)
  unfolding check_fields
  check_fields-Valid i checked kind = (
    ground (arith, checked),
    elim (Bool-cases i.capacity_unlimited) [
      | inl unlimited ↦ inl unlimited
      | inr limited ↦ inr (ground (arith, checked, limited))
    ],
    elim (Bool-cases (str_eq i.kind s3)) [
      | inl is_s3 ↦ inl (
        (str_eq_iff i.kind s3).0 is_s3,
        ground (arith, checked, is_s3),
        ground (arith, checked, is_s3),
        ground (arith, checked, is_s3),
        ground (arith, checked, is_s3),
        cdn_fields i checked is_s3,
      )
      | inr not_s3 ↦
          let is_webdav : str_eq i.kind webdav ≡ true = ground (arith, kind, not_s3) in
          inr (
            (str_eq_iff i.kind webdav).0 is_webdav,
            ground (arith, checked, not_s3, is_webdav),
            ground (arith, checked, not_s3, is_webdav),
            ground (arith, checked, not_s3, is_webdav),
          )
    ],
  )

  without_unused_key-Valid :
      (i : Input)
      → check_fields lib i ≡ ok tt
      → known_kind lib i.kind ≡ ok tt
      → Valid (without_unused_key lib i)
  without_unused_key-Valid i checked kind =
      let (named, sized, fields) = check_fields-Valid i checked kind in
      (
        named,
        sized,
        elim fields [
          | inr dav ↦ inr dav
          | inl (a, b, c, d, e, cdn) ↦ inl (
            a,
            b,
            c,
            d,
            e,
            λ used. elim (cdn used) [
              | inl plain ↦ inl plain
              | inr (mode, key) ↦ inr (mode, rw mode key)
            ],
          )
        ],
        λ other. rw other refl,
      )

  normalized-ok :
      (input i : Input) (existing : Option StoredConfig)
      → normalized lib input existing ≡ ok i
      → (j : Input) × (check_fields lib j ≡ ok tt)
        × (known_kind lib j.kind ≡ ok tt)
        × (without_unused_key lib j ≡ i)
  unfolding normalized
  normalized-ok input i existing h =
      elim (Result-cases (with_endpoints lib (with_old_secrets lib existing (trimmed lib input)))) [
        | inr (e, refused) ↦ absurd (ground (arith, h, refused))
        | inl (given, endpoints) ↦
            let j = with_s3_defaults lib given in
            elim (Result-cases (check_fields lib j)) [
              | inr (e, unchecked) ↦ absurd (ground (arith, h, endpoints, unchecked))
              | inl (_, checked) ↦ elim (Result-cases (known_kind lib j.kind)) [
                | inr (e, unknown) ↦ absurd (ground (arith, h, endpoints, checked, unknown))
                | inl (_, kind) ↦ (j, checked, kind, ground (arith, h, endpoints, checked, kind))
              ]
            ]
      ]

  -- What prepare returns has a name, a capacity, and the fields of its kind, which is S3 or WebDAV; it has
  -- a CDN key only in the mode that uses one, and its backend has answered the probe.
  pub prepare-Valid :
      (probe : Str → StoredConfig → Bool) (input i : Input) (existing : Option StoredConfig)
      (c : StoredConfig)
      → prepare lib probe input existing ≡ ok (i, c)
      → Valid i × (c ≡ stored_config lib i) × (probe i.kind c ≡ true)
  unfolding prepare
  prepare-Valid probe input i existing c h = elim (Result-cases (normalized lib input existing)) [
    | inr (e, refused) ↦ absurd (ground (arith, h, refused))
    | inl (k, normal) ↦
        let same : k ≡ i = ground (arith, h, normal) in
        let config : stored_config lib k ≡ c = ground (arith, h, normal) in
        let answered : probe k.kind (stored_config lib k) ≡ true = ground (arith, h, normal) in
        let (j, checked, kind, unused) = normalized-ok input k existing normal in
        (
          subst Valid (unused ∙ same) (without_unused_key-Valid j checked kind),
          sym config ∙ ap (stored_config lib) same,
          subst (λ x. probe x.kind c ≡ true) same
              (subst (λ x. probe k.kind x ≡ true) config answered),
        )
  ]
