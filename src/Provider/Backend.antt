-- ===== src/Provider/Backend.antt =====
-- internal/provider: what the backends share.
use rosemary_virsree.Prelude.{ℕ, Bool, false, Option, none, some, leb}
use rosemary_virsree.Prelude.Int.{ℤ}
use rosemary_virsree.Prelude.Text.{Str, codes, str_eq}
use rosemary_virsree.Prelude.Sorting.{limit}

-- provider.Head
pub record Head : Type 0 where
  pub size : ℤ
  pub etag : Str
  pub content_type : Str

-- The body is missing where reading it fails.
pub record Response : Type 0 where
  pub status : ℕ
  pub header : Str → Str
  pub body : Option Str

abbrev pub is_bad : Response → Bool
is_bad r = leb 300 r.status

-- The test of a probe's body, of which 16 bytes are read.
abbrev pub is_probe : Option Str → Bool
is_probe none = false
is_probe (some body) = str_eq (limit 16 body) (codes "probe")
