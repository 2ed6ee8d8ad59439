-- ===== src/Store/Logins.antt =====
-- internal/store/platform.go: the challenges of sign-ins that have started, and the sessions of
-- administrators. No other statement reads or writes these two tables.
pub mod Once
use rosemary_virsree.Prelude.{
  ℕ, Bool, true, false, Option, none, some, List, [], ◌∷◌, ltb, if◌then◌else◌,
}
use rosemary_virsree.Prelude.Text.{Str, str_eq}
use rosemary_virsree.Prelude.Table.{find, any, remove}
use rosemary_virsree.Prelude.Results.{
  Result, ok, err, ◌>>=◌, ◌>>◌, fail_if, scan, not_found, constraint, challenge_expired,
}

pub record Challenge : Type 0 where
  pub state_hash : Str
  pub nonce : Str
  pub verifier : Str
  pub expires_at : ℕ

pub record Session : Type 0 where
  pub token_hash : Str
  pub email : Str
  pub expires_at : ℕ

pub record Logins : Type 0 where
  pub oidc_challenges : List Challenge
  pub admin_sessions : List Session

abbrev pub of_state : Str → Challenge → Bool
of_state hash c = str_eq c.state_hash hash

abbrev pub of_token : Str → Session → Bool
of_token hash s = str_eq s.token_hash hash

unfoldable pub save_oidc_challenge : Challenge → Logins → Result Logins
save_oidc_challenge c db = do
  fail_if (any (of_state c.state_hash) db.oidc_challenges) constraint
  ok (record db { oidc_challenges = c ∷ db.oidc_challenges })

-- The challenge, which no later call returns. An expired challenge is left in the table.
unfoldable pub consume_oidc_challenge : ℕ → Str → Logins → Result (Challenge × Logins)
consume_oidc_challenge now hash db = do
  c ← scan (find (of_state hash) db.oidc_challenges) not_found
  fail_if (ltb c.expires_at now) challenge_expired
  ok (c, record db { oidc_challenges = remove (of_state hash) db.oidc_challenges })

unfoldable pub create_admin_session : Session → Logins → Result Logins
create_admin_session s db = do
  fail_if (any (of_token s.token_hash) db.admin_sessions) constraint
  ok (record db { admin_sessions = s ∷ db.admin_sessions })

unfoldable pub delete_admin_session : Str → Logins → Logins
delete_admin_session hash db = record db {
  admin_sessions = remove (of_token hash) db.admin_sessions;
}

abbrev pub live_session : ℕ → Str → Logins → Option Session → Result Str × Logins
live_session now hash db none = (err not_found, db)
live_session now hash db (some s) =
    if ltb s.expires_at now
    then (err not_found, record db { admin_sessions = remove (of_token hash) db.admin_sessions })
    else (ok s.email, db)

-- The administrator of a session. An expired session is deleted.
unfoldable pub admin_session : ℕ → Str → Logins → Result Str × Logins
admin_session now hash db = live_session now hash db (find (of_token hash) db.admin_sessions)
