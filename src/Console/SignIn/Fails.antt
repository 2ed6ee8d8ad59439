-- ===== src/Console/SignIn/Fails.antt =====
-- oidcCallback: what a callback that fails leaves.
use rosemary_virsree.Prelude.{
  ℕ, ◌≡◌, refl, ap, ◌∙◌, Bool, not, ◌||◌, [], arith, inl, inr, Bool-cases, Option-cases,
}
use rosemary_virsree.Prelude.Text.{Str, codes, str_eq}
use rosemary_virsree.Prelude.Table.{find}
use rosemary_virsree.Prelude.Results.{Error, Result, ok, err}
use rosemary_virsree.Store.Logins.{Challenge, Logins, of_state, consume_oidc_challenge}
use rosemary_virsree.Gateway.Request.{Values, get}
use rosemary_virsree.Console.IdToken.{Provider, Fetched}
use rosemary_virsree.Console.SignIn.{
  Config, Token, Profile, oidc_callback, signed_in, with_challenge,
}

module _ (hash trim_space to_lower : Str → Str) (fold : Str → Str → Bool) (idp : Provider)
    (exchange : Str → Str → Fetched Token) (userinfo : Str → Fetched Profile) where
  consume-sessions :
      (now : ℕ) (state : Str) (db : Logins) (r : Challenge × Logins)
      → consume_oidc_challenge now state db ≡ ok r
      → r.1.admin_sessions ≡ db.admin_sessions
  unfolding consume_oidc_challenge
  consume-sessions now state db r h =
      elim (Option-cases (find (of_state state) db.oidc_challenges)) [
        | inl missing ↦ absurd (ground arith)
        | inr (c, found) ↦ ground (arith, h, found)
      ]

  signed_in-error :
      (c : Config) (now : ℕ) (raw : Str) (db : Logins) (r : Result Str) (e : Error)
      → (signed_in hash trim_space to_lower fold idp exchange userinfo c now raw db r).0 ≡ err e
      → (signed_in hash trim_space to_lower fold idp exchange userinfo c now raw db r).1 ≡ db
  signed_in-error c now raw db (err f) e h = refl
  signed_in-error c now raw db (ok email) e h = ground arith

  with_challenge-error :
      (c : Config) (now : ℕ) (code state raw : Str) (db : Logins) (r : Result (Challenge × Logins))
      (e : Error)
      → consume_oidc_challenge now state db ≡ r
      → (with_challenge hash trim_space to_lower fold idp exchange userinfo c now code raw db r).0
        ≡ err e
      → (with_challenge hash trim_space to_lower fold idp exchange userinfo c now code raw db
          r).1.admin_sessions
        ≡ db.admin_sessions
  with_challenge-error c now code state raw db (err f) e consumed h = refl
  with_challenge-error c now code state raw db (ok r) e consumed h =
      ap Logins.admin_sessions (signed_in-error c now raw r.1 _ e h)
      ∙ consume-sessions now state db r consumed

  -- A callback that fails creates no session and changes none.
  pub oidc_callback-error_keeps :
      (c : Config) (now : ℕ) (q : Values) (raw : Str) (db : Logins) (e : Error)
      → (oidc_callback hash trim_space to_lower fold idp exchange userinfo c now q raw db).0 ≡ err e
      → (oidc_callback hash trim_space to_lower fold idp exchange userinfo c now q raw
          db).1.admin_sessions
        ≡ db.admin_sessions
  unfolding oidc_callback
  oidc_callback-error_keeps c now q raw db e h =
      elim (Bool-cases (not (str_eq (get q (codes "error")) []))) [
        | inl denied ↦ rw denied refl
        | inr asked ↦
            elim (Bool-cases
              (str_eq (get q (codes "code")) [] || str_eq (get q (codes "state")) [])) [
                | inl missing ↦ rw (asked, missing) refl
                | inr given ↦
                    rw (asked, given)
                      (with_challenge-error c now (get q (codes "code"))
                        (hash (get q (codes "state"))) raw db
                        (consume_oidc_challenge now (hash (get q (codes "state"))) db) e refl
                        (ground (arith, h, asked, given)))
              ]
      ]
