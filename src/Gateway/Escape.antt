-- ===== src/Gateway/Escape.antt =====
-- The escapes of a canonical query.
use rosemary_virsree.Prelude.{
  ℕ, ◌+◌, ◌*◌, ◌-◌, ◌/◌, ◌%◌, ◌<◌, ◌≡◌, refl, ap, ◌∙◌, false, not, [], ◌∷◌, arith, ltb, ◌==◌,
  if◌then◌else◌, Bool-cases, inl, inr,
}
use rosemary_virsree.Prelude.Text.{Str}
use rosemary_virsree.Prelude.Table.{count}
use rosemary_virsree.Gateway.Signature.{aws_escape, is_unreserved, hex_digit}

-- The value of an upper case hexadecimal digit.
abbrev pub digit_value : ℕ → ℕ
digit_value c = if ltb c 65 then c - 48 else c - 55

-- The text that an escaped text stands for.
unfoldable pub unescape : Str → Str
unescape [] = []
unescape (c ∷ []) = c ∷ []
unescape (c ∷ d ∷ []) = c ∷ d ∷ []
unescape (c ∷ d ∷ e ∷ s) =
    let escaped = unescape s in
    let plain = unescape (d ∷ e ∷ s) in
    if c == 37 then (digit_value d * 16 + digit_value e) ∷ escaped else c ∷ plain

digit_value-hex_digit : (n : ℕ) → n < 16 → digit_value (hex_digit n) ≡ n
digit_value-hex_digit n h = ground arith

unescape-plain : (c : ℕ) (s : Str) → c == 37 ≡ false → unescape (c ∷ s) ≡ c ∷ unescape s
unfolding unescape
unescape-plain c [] h = refl
unescape-plain c (d ∷ []) h = refl
unescape-plain c (d ∷ e ∷ s) h = rw h refl

unescape-escaped :
    (d e : ℕ) (s : Str)
    → unescape (37 ∷ d ∷ e ∷ s) ≡ (digit_value d * 16 + digit_value e) ∷ unescape s
unfolding unescape
unescape-escaped d e s = refl

two_digits :
    (c : ℕ) → c < 256 → digit_value (hex_digit (c / 16)) * 16 + digit_value (hex_digit (c % 16)) ≡ c
two_digits c h =
    let high = digit_value-hex_digit (c / 16) (omega (arith, h)) in
    let low = digit_value-hex_digit (c % 16) (omega arith) in omega (arith, high, low)

-- aws_escape loses nothing: every text of bytes can be read back from its escaped form.
pub unescape-aws_escape :
    (s : Str) → count (λ c. not (ltb c 256)) s ≡ 0 → unescape (aws_escape s) ≡ s
unfolding aws_escape count
unescape-aws_escape [] h = unfold unescape in refl
unescape-aws_escape (c ∷ s) h =
    let rest = unescape-aws_escape s (ground (arith, h)) in
    elim (Bool-cases (is_unreserved c)) [
      | inl kept ↦
          rw kept (unescape-plain c (aws_escape s) (ground (arith, kept)) ∙ ap (λ r. c ∷ r) rest)
      | inr escaped ↦ rw escaped (
          unescape-escaped (hex_digit (c / 16)) (hex_digit (c % 16)) (aws_escape s)
          ∙ (ap (λ n. n ∷ unescape (aws_escape s)) (two_digits c (ground (arith, h)))
              ∙ ap (λ r. c ∷ r) rest))
    ]
