-- ===== src/Config/Bounds.antt =====
-- Load: what an accepted configuration has.
use rosemary_virsree.Prelude.{
  ℕ, ◌≤◌, ◌≡◌, refl, subst, true, false, [], ◌++◌, ◌∷◌, not, ◌&&◌, arith, inl, inr, Bool-cases,
}
use rosemary_virsree.Prelude.Int.{pos, ◌≤ℤ◌}
use rosemary_virsree.Prelude.Text.{Str, codes, str_eq, has_prefix}
use rosemary_virsree.Prelude.Results.{ok, Result-cases}
use rosemary_virsree.Service.Uploads.{length}
use rosemary_virsree.Service.Storage.Endpoints.{trim_slashes}
use rosemary_virsree.Config.{
  Config, Tools, read, configured_oidc, oidc_ready, check_values, with_redirect, finished, load,
}

abbrev pub Strong : ℕ → Str → Type 0
Strong n secret = (n ≤ length secret) × (has_prefix secret (codes "change-this") ≡ false)

abbrev pub Accepted : Config → Type 0
Accepted c =
    Strong 24 c.admin_token
    × Strong 32 c.master_key
    × (pos 1 ≤ℤ c.total_quota)
    × (pos 1 ≤ℤ c.max_objects_per_bucket)
    × (pos 1 ≤ℤ c.max_pending_uploads)
    × (pos 300 ≤ℤ c.session_ttl)
    × (pos 60 ≤ℤ c.backup_interval)
    × (pos 2 ≤ℤ c.backup_retention)
    × (c.backup_retention ≤ℤ pos 30)

module _ (tools : Tools) where
  check_values-Accepted : (c : Config) → check_values tools c ≡ ok tt → Accepted c
  unfolding check_values
  check_values-Accepted c h = (
    (ground (arith, h), ground (arith, h)),
    (ground (arith, h), ground (arith, h)),
    ground (arith, h),
    ground (arith, h),
    ground (arith, h),
    ground (arith, h),
    ground (arith, h),
    ground (arith, h),
    ground (arith, h),
  )

  appended : (s t : Str) → str_eq t [] ≡ false → str_eq (s ++ t) [] ≡ false
  unfolding str_eq
  appended [] t h = h
  appended (c ∷ s) t h = refl

  -- All the settings of the sign-in, with a redirect URL, or none of them.
  abbrev pub AllOrNone : Config → Type 0
  AllOrNone c =
      (configured_oidc tools c ≡ oidc_ready tools c)
      × (oidc_ready tools c ≡ true → str_eq c.oidc_redirect_url [] ≡ false)

  both :
      (c : Config)
      → (configured_oidc tools c && not (oidc_ready tools c)) ≡ false
      → configured_oidc tools c ≡ oidc_ready tools c
  unfolding oidc_ready
  both c h = ground (arith, h)

  finished-AllOrNone :
      (c : Config)
      → Accepted c
      → configured_oidc tools c ≡ oidc_ready tools c
      → Accepted (finished tools (with_redirect tools c))
        × AllOrNone (finished tools (with_redirect tools c))
  unfolding oidc_ready
  finished-AllOrNone c accepted all =
      elim (Bool-cases (configured_oidc tools c && str_eq c.oidc_redirect_url [])) [
        | inl unset ↦ rw unset (
          accepted,
          (all, λ _. appended c.public_url (codes "/auth/callback") (unfold str_eq in refl)),
        )
        | inr set ↦ rw set (accepted, (all, λ ready. ground (arith, set, ready, all)))
      ]

  -- Load accepts only a configuration with secrets that are long enough and no placeholders, limits above
  -- zero, sessions of at least 300 seconds, backups at least a minute apart in 2 to 30 slots, and
  -- either all the settings of the sign-in, with a redirect URL, or none of them.
  pub load-Accepted :
      (getenv : Str → Str) (c : Config) → load tools getenv ≡ ok c → Accepted c × AllOrNone c
  unfolding load
  load-Accepted getenv c h =
      let first = read tools getenv in
      elim (Result-cases (check_values tools first)) [
        | inr (e, refused) ↦ absurd (ground (arith, h, refused))
        | inl (_, checked) ↦
            let c1 : Config = record first { public_url = trim_slashes first.public_url } in
            let same : finished tools (with_redirect tools c1) ≡ c = ground (arith, h, checked) in
            let values = check_values-Accepted first checked in
            let all = both c1 (ground (arith, h, checked)) in
            subst (λ d. Accepted d × AllOrNone d) same (finished-AllOrNone c1 values all)
      ]
