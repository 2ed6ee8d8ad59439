-- ===== src/Tests/Codec.antt =====
-- Texts that are written one behind the other, each behind its length.
use rosemary_virsree.Prelude.{ℕ, zero, suc, ◌≡◌, refl, ap, ◌∙◌, List, [], ◌∷◌, ◌++◌}
use rosemary_virsree.Prelude.Text.{Str}
use rosemary_virsree.Service.Uploads.{length}

abbrev pub cons_first : ℕ → Str × Str → Str × Str
cons_first c r = (c ∷ r.0, r.1)

unfoldable pub split_at : ℕ → Str → Str × Str
split_at zero s = ([], s)
split_at (suc n) [] = ([], [])
split_at (suc n) (c ∷ s) = cons_first c (split_at n s)

pub split_at-length : (s t : Str) → split_at (length s) (s ++ t) ≡ (s, t)
unfolding split_at
split_at-length [] t = refl
split_at-length (c ∷ s) t = ap (cons_first c) (split_at-length s t)

unfoldable pub put_all : List Str → Str
put_all [] = []
put_all (s ∷ ss) = length s ∷ (s ++ put_all ss)

abbrev pub read_one : Str → Str × Str
read_one [] = ([], [])
read_one (n ∷ s) = split_at n s

unfoldable pub read_all : ℕ → Str → List Str
unfolding split_at
read_all zero s = []
read_all (suc n) s = let r = read_one s in r.0 ∷ read_all n r.1

abbrev pub size : List Str → ℕ
size [] = 0
size (s ∷ ss) = suc (size ss)

pub read_all-put_all : (ss : List Str) → read_all (size ss) (put_all ss) ≡ ss
unfolding read_all put_all
read_all-put_all [] = refl
read_all-put_all (s ∷ ss) =
    ap (λ (r : Str × Str). r.0 ∷ read_all (size ss) r.1) (split_at-length s (put_all ss))
    ∙ ap (λ r. s ∷ r) (read_all-put_all ss)
