-- ===== src/Gateway/Auth/Window.antt =====
-- verifyRequest: what an accepted request has shown.
use rosemary_virsree.Prelude.{
  ◌≡◌, true, false, Option, some, arith, inl, inr, Bool-cases, Option-cases, ◌⊎◌,
}
use rosemary_virsree.Prelude.Int.{ℤ, ◌≤ℤ◌, ◌+ℤ◌}
use rosemary_virsree.Prelude.Text.{Str}
use rosemary_virsree.Prelude.Split.{split}
use rosemary_virsree.Prelude.Results.{ok, Result-cases}
use rosemary_virsree.Gateway.Request.{Request, Proof, slash}
use rosemary_virsree.Gateway.Signature.{Crypto}
use rosemary_virsree.Gateway.Auth.{
  skew, seconds, check_time, valid_scope, signature_good, verify_request,
}

-- The request is signed at a time that is close enough to `now`.
abbrev pub InWindow : ℤ → Proof → ℤ → Type 0
InWindow now p t =
    ((p.presigned ≡ true) × (now ≤ℤ t +ℤ seconds p.expires))
    ⊎ ((p.presigned ≡ false) × (now ≤ℤ t +ℤ skew) × (t ≤ℤ now +ℤ skew))

pub check_time-InWindow :
    (now : ℤ) (p : Proof) (t : ℤ) → check_time now p t ≡ ok tt → InWindow now p t
unfolding check_time
check_time-InWindow now p t h = elim (Bool-cases p.presigned) [
  | inl signed ↦ inl (signed, ground (arith, h))
  | inr plain ↦ inr (plain, ground (arith, h), ground (arith, h))
]

module _ (lib : Crypto) (parse_time : Str → Option ℤ) where
  -- verifyRequest accepts a request only with a time stamp within its window, a scope of the S3
  -- service, and a signature that is the expected one for this request, secret and scope.
  pub verify_request_sound :
      (now : ℤ) (r : Request) (p : Proof) (secret : Str)
      → verify_request lib parse_time now r p secret ≡ ok tt
      → ((t : ℤ) × (parse_time p.amz_date ≡ some t) × InWindow now p t)
        × (valid_scope (split slash p.scope) ≡ true)
        × (signature_good lib parse_time r p secret ≡ true)
  unfolding verify_request
  verify_request_sound now r p secret h = elim (Option-cases (parse_time p.amz_date)) [
    | inl unparsed ↦ absurd (ground arith)
    | inr (t, parsed) ↦ elim (Result-cases (check_time now p t)) [
      | inr (e, late) ↦ absurd (ground arith)
      | inl (_, timely) ↦
          ((t, parsed, check_time-InWindow now p t timely), ground arith, ground arith)
    ]
  ]
