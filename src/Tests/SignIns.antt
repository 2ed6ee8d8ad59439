-- ===== src/Tests/SignIns.antt =====
-- A sign-in from its challenge to its session.
use rosemary_virsree.Prelude.{ℕ, zero, suc, ◌≡◌, refl, some, none, List, [], ◌∷◌}
use rosemary_virsree.Prelude.Int.{pos}
use rosemary_virsree.Prelude.Text.{Str, codes, str_eq}
use rosemary_virsree.Prelude.Results.{ok, err, not_found}
use rosemary_virsree.Store.Logins.{
  Challenge, Session, Logins, consume_oidc_challenge, create_admin_session,
}
use rosemary_virsree.Store.Logins.Once.{LoginOp, save, delete, run, consume_oidc_challenge-once}
use rosemary_virsree.Gateway.Request.{Values}
use rosemary_virsree.Console.Times.{unix, clock, add_minute, after}
use rosemary_virsree.Console.IdToken.{
  Jwk, Claims, Provider, single, Fetched, answered, verify_id_token,
}
use rosemary_virsree.Console.IdToken.Accepts.{Signed, Fitting, verify_id_token_accepts}
use rosemary_virsree.Console.SignIn.{Config, Token, Profile, oidc_callback}
use rosemary_virsree.Console.SignIn.Admits.{Admitted, oidc_callback-admits}
use rosemary_virsree.Tests.Sample.{tables}

abbrev challenge : Challenge
challenge = record {
  state_hash = codes "st";
  nonce = codes "no";
  verifier = codes "ve";
  expires_at = 2000000000000;
}

abbrev started : Logins
started = record { oidc_challenges = challenge ∷ []; admin_sessions = [] }

abbrev spent : Logins
spent = record { oidc_challenges = []; admin_sessions = [] }

abbrev now : ℕ
now = 950000000000

abbrev between : List LoginOp
between = save (record challenge { state_hash = codes "other" }) ∷ delete (codes "x") ∷ []

consume_oidc_challenge-once_example :
    consume_oidc_challenge now (codes "st") (run between spent) ≡ err not_found
unfolding tables consume_oidc_challenge
consume_oidc_challenge-once_example =
    consume_oidc_challenge-once (codes "st") now now started (challenge, spent) between refl refl

-- A modulus of 256 bytes.
abbrev zeros : ℕ → Str
zeros zero = []
zeros (suc n) = 0 ∷ zeros n

abbrev jwk : Jwk
jwk = record {
  key_type = codes "RSA";
  key_id = codes "k";
  algorithm = [];
  use_for = codes "sig";
  modulus = 128 ∷ zeros 255;
  exponent = 1 ∷ 0 ∷ 1 ∷ [];
}

abbrev claims : Claims
claims = record {
  issuer = codes "https://id/";
  subject = codes "s";
  audience = single (codes "cl");
  expires = pos 1000;
  issued_at = pos 900;
  not_before = pos 0;
  nonce = codes "no";
}

-- Nothing is encoded, and a signature is good where it is `g`.
abbrev idp : Provider
idp = record {
  decode = λ s. some s;
  header = λ _. some (record { algorithm = codes "RS256"; key_id = codes "k" });
  claims = λ _. some claims;
  metadata =
      λ _. answered 200 (some (record { issuer = codes "https://id"; jwks_uri = codes "u" }));
  key_set = λ _. answered 200 (some (jwk ∷ []));
  verifies = λ _ _ s. str_eq s (codes "g");
}

verified :
    verify_id_token idp now (codes "h.p.g") (codes "https://id") (codes "cl") (codes "no")
    ≡ ok (codes "s")
unfolding tables verify_id_token unix clock add_minute after
verified = refl

verify_id_token_accepts_example :
    (c : Claims) × Signed idp (codes "h.p.g") (codes "https://id") c
    × (c.subject ≡ codes "s")
    × Fitting idp now (codes "https://id") (codes "cl") (codes "no") c
verify_id_token_accepts_example =
    verify_id_token_accepts idp now (codes "h.p.g") (codes "https://id") (codes "cl") (codes "no")
      (codes "s") verified

abbrev config : Config
config = record {
  admin_token = codes "t";
  issuer = codes "https://id";
  client_id = codes "cl";
  client_secret = codes "se";
  admin_emails = codes "a@b" ∷ [];
  session_ttl = pos 300;
}

abbrev query : Values
query = (codes "code", codes "co" ∷ []) ∷ (codes "state", codes "st" ∷ []) ∷ []

abbrev exchange : Str → Str → Fetched Token
exchange _ _ = answered 200 (some (record { access_token = codes "at"; id_token = codes "h.p.g" }))

abbrev userinfo : Str → Fetched Profile
userinfo _ =
    answered 200 (some (record { subject = codes "s"; email = codes "a@b"; email_verified = none }))

abbrev session : Session
session = record { token_hash = codes "raw"; email = codes "a@b"; expires_at = 1250000000000 }

abbrev signed_in : Logins
signed_in = record spent { admin_sessions = session ∷ [] }

admitted :
    oidc_callback
      (λ s. s)
      (λ s. s)
      (λ s. s)
      str_eq
      idp
      exchange
      userinfo
      config
      now
      query
      (codes "raw")
      started
    ≡ (ok session, signed_in)
unfolding tables oidc_callback consume_oidc_challenge create_admin_session unix clock add_minute
    after verify_id_token
admitted = refl

oidc_callback-admits_example :
    Admitted
      (λ s. s)
      (λ s. s)
      (λ s. s)
      str_eq
      idp
      exchange
      userinfo
      config
      now
      query
      (codes "raw")
      started
      signed_in
      session
oidc_callback-admits_example =
    oidc_callback-admits (λ s. s) (λ s. s) (λ s. s) str_eq idp exchange userinfo config now query
      (codes "raw") started signed_in session admitted
