-- ===== src/Console/Times.antt =====
-- time.Unix, Time.Add and Time.After as internal/httpapi/oidc_token.go uses them. A time is its seconds
-- since the year 1, an int64, and its nanoseconds.
use rosemary_virsree.Prelude.{ℕ, ◌-◌, ◌/◌, ◌%◌, Bool, ◌&&◌, ◌||◌, ltb, if◌then◌else◌}
use rosemary_virsree.Prelude.Int.{ℤ, pos, ◌+ℤ◌, ltb_ℤ, leb_ℤ, wrap64, two_63}
use rosemary_virsree.Store.Deletion.{second}

pub record Time : Type 0 where
  pub sec : ℤ
  pub nsec : ℕ

-- The seconds from the year 1 to 1970.
abbrev pub to_unix : ℤ
to_unix = pos 62135596800

-- time.Unix(n, 0)
unfoldable pub unix : ℤ → Time
unix n = record { sec = wrap64 (n +ℤ to_unix); nsec = 0 }

-- time.Now() at `now` nanoseconds after 1970
unfoldable pub clock : ℕ → Time
clock now = record { sec = pos (now / second) +ℤ to_unix; nsec = now % second }

abbrev pub max_int64 : ℤ
max_int64 = pos (two_63 - 1)

-- t.Add(time.Minute), which stops at the last time.
unfoldable pub add_minute : Time → Time
add_minute t =
    let sum = t.sec +ℤ pos 60 in
    record { sec = if ltb_ℤ max_int64 sum then max_int64 else sum; nsec = t.nsec }

unfoldable pub after : Time → Time → Bool
after t u = ltb_ℤ u.sec t.sec || (leb_ℤ u.sec t.sec && (leb_ℤ t.sec u.sec && ltb u.nsec t.nsec))
