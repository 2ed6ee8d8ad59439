-- ===== src/Gateway/Objects/Tokens.antt =====
-- Continuation tokens of the listing.
use rosemary_virsree.Prelude.{
  ◌≤◌, ◌≡◌, ◌≢◌, ◌⊎◌, refl, inl, inr, sym, false, Option, none, some, [], arith, ltb, Bool-cases,
}
use rosemary_virsree.Prelude.Text.{Str, codes, str_eq, str_eq_iff, str_eq_refl}
use rosemary_virsree.Service.Uploads.{length}
use rosemary_virsree.Gateway.Request.{Values, get}
use rosemary_virsree.Gateway.Objects.{Cursor, start_of}

-- Where decoding gives back the cursor that a continuation token encodes, a token of at most 8 KiB that
-- was made for a bucket, a prefix and a key resumes a listing of that bucket and prefix behind that
-- key, and a listing of any other bucket or prefix refuses it.
pub start_of-token :
    (encode : Cursor → Str) (decode : Str → Option Cursor)
    → (c : Cursor) → decode (encode c) ≡ some c
    → (q : Values) (bucket prefix : Str) → get q (codes "continuation-token") ≡ encode c
    → encode c ≢ []
    → c.after ≢ []
    → length (encode c) ≤ 8192
    → ((bucket ≡ c.bucket)
        × (prefix ≡ c.prefix)
        × (start_of encode decode q bucket prefix ≡ some c.after))
      ⊎ (((bucket ≢ c.bucket) ⊎ (prefix ≢ c.prefix))
          × (start_of encode decode q bucket prefix ≡ none))
unfolding start_of
start_of-token encode decode c codec q bucket prefix given token after fits =
    let nonempty : str_eq (encode c) [] ≡ false = ground (arith, str_eq_iff (encode c) [], token) in
    let behind : str_eq c.after [] ≡ false = ground (arith, str_eq_iff c.after [], after) in
    let short : ltb 8192 (length (encode c)) ≡ false = ground (arith, fits) in
    elim (Bool-cases (str_eq c.bucket bucket)) [
      | inr other ↦ inr (
        inl (λ e. absurd (ground (arith, e, str_eq_refl bucket))),
        rw (given, nonempty, short, codec, other) refl,
      )
      | inl same ↦ elim (Bool-cases (str_eq c.prefix prefix)) [
        | inr other ↦ inr (
          inr (λ e. absurd (ground (arith, e, str_eq_refl prefix))),
          rw (given, nonempty, short, codec, same, other) refl,
        )
        | inl same' ↦ inl (
          sym ((str_eq_iff c.bucket bucket).0 same),
          sym ((str_eq_iff c.prefix prefix).0 same'),
          rw (given, nonempty, short, codec, same, same', behind) refl,
        )
      ]
    ]
