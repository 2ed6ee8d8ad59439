-- ===== src/Console/SignIn.antt =====
-- internal/httpapi/auth.go: sessions, the start of a sign-in, its callback, and the end of a session.
-- The random values, the secret hash and the requests to the identity provider are parameters; a
-- redirect with an error message is the error's constructor.
pub mod Admits
pub mod Fails
use rosemary_virsree.Prelude.{
  ℕ, ◌+◌, ◌*◌, Bool, true, false, not, ◌&&◌, ◌||◌, Option, none, some, List, [], ◌∷◌, ◌++◌, ltb,
  if◌then◌else◌,
}
use rosemary_virsree.Prelude.Int.{ℤ, pos}
use rosemary_virsree.Prelude.Text.{Str, codes, str_eq}
use rosemary_virsree.Prelude.Table.{any}
use rosemary_virsree.Prelude.Results.{
  Error, Result, ok, err, ◌>>=◌, ◌>>◌, fail_if, login_denied, login_parameters, challenge_expired,
  exchange_failed, id_token_missing, bad_id_token, bad_profile, email_unverified, not_admin,
  session_failed, unavailable,
}
use rosemary_virsree.Store.Deletion.{minute}
use rosemary_virsree.Store.Logins.{
  Challenge, Session, Logins, save_oidc_challenge, consume_oidc_challenge, create_admin_session,
  admin_session, delete_admin_session,
}
use rosemary_virsree.Service.Uploads.{after_seconds}
use rosemary_virsree.Gateway.Request.{Values, get}
use rosemary_virsree.Console.IdToken.{
  Provider, Fetched, unreachable, answered, fetched, verify_id_token,
}

-- The configuration that a sign-in reads.
pub record Config : Type 0 where
  pub admin_token : Str
  pub issuer : Str
  pub client_id : Str
  pub client_secret : Str
  pub admin_emails : List Str
  pub session_ttl : ℤ

-- Config.OIDCReady
unfoldable pub oidc_ready : Config → Bool
oidc_ready c =
    not (str_eq c.client_id [])
    && (not (str_eq c.client_secret []) && any (λ _. true) c.admin_emails)

-- The bodies of the token and the userinfo endpoints.
pub record Token : Type 0 where
  pub access_token : Str
  pub id_token : Str

pub record Profile : Type 0 where
  pub subject : Str
  pub email : Str
  pub email_verified : Option Bool

abbrev pub known : Result Str × Logins → Option Str × Logins
known (ok email, db) = (some email, db)
known (err e, db) = (none, db)

-- sessionEmail: the administrator of the session cookie's value.
module _ (hash : Str → Str) where
  abbrev pub cookie_email : ℕ → Option Str → Logins → Option Str × Logins
  cookie_email now none db = (none, db)
  cookie_email now (some v) db =
      if str_eq v [] then (none, db) else known (admin_session now (hash v) db)

  -- The session's administrator, or a caller with the automation token.
  unfoldable pub session : Config → ℕ → Option Str → Str → Logins → Option Str × Logins
  session c now cookie authorization db =
      let r = cookie_email now cookie db in
      elim r.0 [
        | some email ↦ r
        | none ↦
            if str_eq authorization (codes "Bearer " ++ c.admin_token)
            then (some (codes "automation-token"), r.1)
            else r
      ]

  unfoldable pub oidc_login : Config → ℕ → Str → Str → Str → Logins → Result Logins
  oidc_login c now state nonce verifier db = do
    fail_if (not (oidc_ready c)) unavailable
    save_oidc_challenge
        (record {
          state_hash = hash state;
          nonce = nonce;
          verifier = verifier;
          expires_at = now + 10 * minute;
        })
        db

  unfoldable pub logout : Option Str → Logins → Logins
  logout none db = db
  logout (some v) db = delete_admin_session (hash v) db

-- containsFold; `fold` is strings.EqualFold
unfoldable pub contains_fold : (Str → Str) → (Str → Str → Bool) → List Str → Str → Bool
contains_fold trim_space fold items wanted = any (λ i. fold (trim_space i) wanted) items

abbrev pub explicitly_false : Option Bool → Bool
explicitly_false none = false
explicitly_false (some b) = not b

module _ (hash trim_space to_lower : Str → Str) (fold : Str → Str → Bool) (idp : Provider)
    (exchange : Str → Str → Fetched Token) (userinfo : Str → Fetched Profile) where
  abbrev pub subject_of : Result Str → Result Str
  subject_of (ok s) = ok s
  subject_of (err e) = err bad_id_token

  -- The checked profile's e-mail address.
  unfoldable pub email_of : Config → Str → Profile → Result Str
  unfolding contains_fold
  email_of c subject user = do
    fail_if (str_eq user.subject [] || (not (str_eq user.subject subject) || str_eq user.email []))
        bad_profile
    fail_if (explicitly_false user.email_verified) email_unverified
    let email = to_lower (trim_space user.email)
    fail_if (not (contains_fold trim_space fold c.admin_emails email)) not_admin
    ok email

  -- The requests to the identity provider and the checks of their answers.
  unfoldable pub identify : Config → ℕ → Str → Challenge → Result Str
  unfolding email_of
  identify c now code challenge = do
    token ← fetched (exchange code challenge.verifier) exchange_failed
    fail_if (str_eq token.access_token []) exchange_failed
    fail_if (str_eq token.id_token []) id_token_missing
    subject ←
        subject_of (verify_id_token idp now token.id_token c.issuer c.client_id challenge.nonce)
    user ← fetched (userinfo token.access_token) bad_profile
    email_of c subject user

  abbrev pub created : Session → Logins → Result Logins → Result Session × Logins
  created s db (ok next) = (ok s, next)
  created s db (err e) = (err session_failed, db)

  abbrev pub signed_in : Config → ℕ → Str → Logins → Result Str → Result Session × Logins
  signed_in c now raw db (err e) = (err e, db)
  signed_in c now raw db (ok email) =
      let s : Session = record {
        token_hash = hash raw;
        email = email;
        expires_at = after_seconds now c.session_ttl;
      } in
      created s db (create_admin_session s db)

  abbrev pub with_challenge :
      Config → ℕ → Str → Str → Logins → Result (Challenge × Logins) → Result Session × Logins
  with_challenge c now code raw db (err e) = (err challenge_expired, db)
  with_challenge c now code raw db (ok r) = signed_in c now raw r.1 (identify c now code r.0)

  -- The callback of a sign-in. The challenge is spent, whatever comes after. `raw` is the new session's
  -- random value.
  unfoldable pub oidc_callback : Config → ℕ → Values → Str → Logins → Result Session × Logins
  unfolding get identify
  oidc_callback c now q raw db =
      let code = get q (codes "code") in
      let state = get q (codes "state") in
      if not (str_eq (get q (codes "error")) [])
      then (err login_denied, db)
      else (if str_eq code [] || str_eq state []
          then (err login_parameters, db)
          else with_challenge c now code raw db (consume_oidc_challenge now (hash state) db))
