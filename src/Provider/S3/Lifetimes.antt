-- ===== src/Provider/S3/Lifetimes.antt =====
-- The lifetimes of the links that S3 signs for downloads.
use rosemary_virsree.Prelude.{
  ℕ, ◌+◌, ◌*◌, ◌≤◌, ◌<◌, ◌≡◌, ◌⊎◌, inl, inr, true, false, some, arith, suc, Bool-cases,
  Option-cases,
}
use rosemary_virsree.Prelude.Int.{ℤ, pos, pos_part, ◌≤ℤ◌}
use rosemary_virsree.Prelude.Text.{Str, codes, str_eq}
use rosemary_virsree.Prelude.Results.{ok, ◌>>◌, scan, remote_failed}
use rosemary_virsree.Store.Deletion.{second}
use rosemary_virsree.Service.Storage.Endpoints.{Url, Libraries}
use rosemary_virsree.Provider.S3.{
  S3, Sdk, deadline, disposition, max_sig_v4_ttl, presign_get, presign_bitiful, signed_cdn_url,
  valid_ttl,
}

module _ {W : Type 0} (sdk : Sdk W) (lib : Libraries) (escaped_path md5 : Str → Str) (s : S3)
    (now : ℕ) where
  -- A link of the download CDN, which ends within the second before its lifetime does.
  abbrev pub CdnLink : Str → ℤ → Str → Type 0
  CdnLink key ttl url =
      (u : Url) × (until : ℕ) × (lib.parse s.download_endpoint ≡ some u)
      × (url ≡ lib.to_text (signed_cdn_url sdk lib escaped_path md5 s now key until u))
      × (until * second ≤ now + pos_part ttl)
      × (now + pos_part ttl < suc until * second)

  -- A link that the SDK signs for one second to seven days.
  abbrev pub SignedLink : Str → ℤ → Str → Str → Type 0
  SignedLink key ttl name url =
      (sdk.sign_get s.bucket key (disposition name) ttl ≡ some url) × (ttl ≤ℤ max_sig_v4_ttl)

  bitiful_link :
      (key : Str) (ttl : ℤ) (url : Str)
      → presign_bitiful sdk lib escaped_path md5 s now key ttl ≡ ok url
      → CdnLink key ttl url
  unfolding presign_bitiful
  bitiful_link key ttl url h = elim (Option-cases (lib.parse s.download_endpoint)) [
    | inl bad ↦ absurd (ground (arith, h, bad))
    | inr (u, parsed) ↦ (
      u,
      deadline now ttl,
      parsed,
      ground (arith, h, parsed),
      unfold deadline in omega arith,
      unfold deadline in omega arith,
    )
  ]

  signed_link :
      (key : Str) (ttl : ℤ) (name url : Str)
      → (valid_ttl ttl >> scan (sdk.sign_get s.bucket key (disposition name) ttl) remote_failed)
        ≡ ok url
      → (pos second ≤ℤ ttl) × SignedLink key ttl name url
  unfolding valid_ttl
  signed_link key ttl name url h =
      elim (Option-cases (sdk.sign_get s.bucket key (disposition name) ttl)) [
        | inl unsigned ↦ absurd (ground (arith, h, unsigned))
        | inr (link, signed) ↦ (ground (arith, h), (ground (arith, h, signed), ground (arith, h)))
      ]

  -- A download link of S3 lives for a second at least. Where the download mode is bitiful_token it is a
  -- CDN link whose end is that of its lifetime, rounded down to the second; otherwise the SDK has
  -- signed it, for seven days at most.
  pub presign_get-lifetime :
      (key : Str) (ttl : ℤ) (name url : Str)
      → presign_get sdk lib escaped_path md5 s now key ttl name ≡ ok url
      → (pos second ≤ℤ ttl)
        × (((str_eq s.download_mode (codes "bitiful_token") ≡ true) × CdnLink key ttl url)
            ⊎ ((str_eq s.download_mode (codes "bitiful_token") ≡ false)
                × SignedLink key ttl name url))
  unfolding presign_get
  presign_get-lifetime key ttl name url h =
      elim (Bool-cases (str_eq s.download_mode (codes "bitiful_token"))) [
        | inl cdn ↦
            (ground (arith, h, cdn), inl (cdn, bitiful_link key ttl url (ground (arith, h, cdn))))
        | inr plain ↦
            let (long, link) = signed_link key ttl name url (ground (arith, h, plain)) in
            (long, inr (plain, link))
      ]
