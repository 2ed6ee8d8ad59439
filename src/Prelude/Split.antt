-- ===== src/Prelude/Split.antt =====
-- strings.Split and strings.Join with a separator of one byte, and strings.SplitN(s, sep, 2).
use rosemary_virsree.Prelude.Tests.{◌==◌, if◌then◌else◌, Bool-cases}
use rosemary_virsree.Prelude.Text.{Str}
use rosemary_virsree.Prelude.Table.{any}
use Prim.Native.Nat.{ℕ}
use mathlib.Core.Path.{◌≡◌, refl, ap, ◌∙◌, subst}
use mathlib.Core.Logic.{inl, inr}
use mathlib.Core.Bool.{Bool, false}
use mathlib.Core.Option.{Option, none, some}
use mathlib.Core.List.{List, [], ◌∷◌, ◌++◌}
use native.Mathlib.Omega.{arith}

abbrev pub onto_first : ℕ → List Str → List Str
onto_first c [] = (c ∷ []) ∷ []
onto_first c (w ∷ ws) = (c ∷ w) ∷ ws

module _ (sep : ℕ) where
  -- strings.Split(s, sep)
  unfoldable pub split : Str → List Str
  split [] = [] ∷ []
  split (c ∷ s) = let rest = split s in if c == sep then [] ∷ rest else onto_first c rest

  -- strings.Join(ws, sep)
  unfoldable pub join : List Str → Str
  join [] = []
  join (w ∷ []) = w
  join (w ∷ v ∷ ws) = w ++ sep ∷ join (v ∷ ws)

  abbrev pub onto_left : ℕ → Option (Str × Str) → Option (Str × Str)
  onto_left c none = none
  onto_left c (some (a, b)) = some (c ∷ a, b)

  -- strings.SplitN(s, sep, 2), where it gives two parts
  unfoldable pub cut : Str → Option (Str × Str)
  cut [] = none
  cut (c ∷ s) = let rest = cut s in if c == sep then some ([], s) else onto_left c rest

  abbrev pub has_byte : Str → Bool
  has_byte = any (λ c. c == sep)

  -- A word without the separator is split off whole.
  pub split-word : (w s : Str) → has_byte w ≡ false → split (w ++ sep ∷ s) ≡ w ∷ split s
  unfolding split any
  split-word [] s h = ground arith
  split-word (c ∷ w) s h = ground (arith, split-word w s)

  pub split_one : (w : Str) → has_byte w ≡ false → split w ≡ w ∷ []
  unfolding split any
  split_one [] h = refl
  split_one (c ∷ w) h = ground (arith, split_one w)

  pub split-join :
      (w : Str) (ws : List Str) → any has_byte (w ∷ ws) ≡ false → split (join (w ∷ ws)) ≡ w ∷ ws
  unfolding join any
  split-join w [] h = split_one w (ground arith)
  split-join w (v ∷ ws) h =
      split-word w (join (v ∷ ws)) (ground arith) ∙ ap (λ r. w ∷ r) (split-join v ws (ground arith))

  pub split_nonempty : (s : Str) → (w : Str) × (ws : List Str) × (split s ≡ w ∷ ws)
  unfolding split
  split_nonempty [] = ([], [], refl)
  split_nonempty (c ∷ s) =
      let (w, ws, e) = split_nonempty s in
      elim (Bool-cases (c == sep)) [
        | inl at_sep ↦ ([], split s, ground arith)
        | inr go ↦ (c ∷ w, ws, ground arith)
      ]

  -- The words of a split hold no separator, and their join is the text.
  pub split_plain : (s : Str) → any has_byte (split s) ≡ false
  unfolding split any
  split_plain [] = refl
  split_plain (c ∷ s) =
      let (w, ws, e) = split_nonempty s in
      let rest = split_plain s in
      elim (Bool-cases (c == sep)) [ inl at_sep ↦ ground arith | inr go ↦ ground arith ]

  join-onto_first : (c : ℕ) (w : Str) (ws : List Str) → join ((c ∷ w) ∷ ws) ≡ c ∷ join (w ∷ ws)
  unfolding join
  join-onto_first c w [] = refl
  join-onto_first c w (v ∷ ws) = refl

  pub join-split : (s : Str) → join (split s) ≡ s
  unfolding split join
  join-split [] = refl
  join-split (c ∷ s) =
      let (w, ws, e) = split_nonempty s in
      let rest : join (w ∷ ws) ≡ s = subst (λ t. join t ≡ s) e (join-split s) in
      let first = join-onto_first c w ws in
      elim (Bool-cases (c == sep)) [ inl at_sep ↦ ground arith | inr go ↦ ground arith ]
