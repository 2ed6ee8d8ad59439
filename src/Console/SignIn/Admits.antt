-- ===== src/Console/SignIn/Admits.antt =====
-- oidcCallback: whom it admits.
use rosemary_virsree.Prelude.{
  ℕ, ◌≤◌, ◌≡◌, none, some, ap, sym, subst, ◌∙◌, Bool, true, false, arith, inl, inr, Option-cases,
}
use rosemary_virsree.Prelude.Text.{Str, codes, str_eq_iff}
use rosemary_virsree.Prelude.Table.{find}
use rosemary_virsree.Prelude.Table.Rows.{find-remove_self}
use rosemary_virsree.Prelude.Results.{Result, ok, err, Result-cases, bad_profile, exchange_failed}
use rosemary_virsree.Store.Logins.{
  Challenge, Session, Logins, of_state, consume_oidc_challenge, create_admin_session,
}
use rosemary_virsree.Service.Uploads.{after_seconds}
use rosemary_virsree.Gateway.Request.{Values, get}
use rosemary_virsree.Console.IdToken.{Provider, Fetched, fetched, verify_id_token}
use rosemary_virsree.Console.SignIn.{
  Config, Token, Profile, contains_fold, explicitly_false, email_of, identify, oidc_callback,
  signed_in, created,
}

module _ (hash trim_space to_lower : Str → Str) (fold : Str → Str → Bool) (idp : Provider)
    (exchange : Str → Str → Fetched Token) (userinfo : Str → Fetched Profile) where
  -- The code was exchanged for an ID token of this sign-in and a profile of the same subject, whose
  -- address is not marked as unverified and is on the list of administrators.
  abbrev pub Identified : Config → ℕ → Str → Challenge → Str → Type 0
  Identified c now code challenge email =
      (token : Token) × (user : Profile) × (fetched (exchange code challenge.verifier)
          exchange_failed
        ≡ ok token)
      × (fetched (userinfo token.access_token) bad_profile ≡ ok user)
      × (verify_id_token idp now token.id_token c.issuer c.client_id challenge.nonce
          ≡ ok user.subject)
      × (explicitly_false user.email_verified ≡ false)
      × (email ≡ to_lower (trim_space user.email))
      × (contains_fold trim_space fold c.admin_emails email ≡ true)

  email_of-ok :
      (c : Config) (subject email : Str) (user : Profile)
      → email_of hash trim_space to_lower fold idp exchange userinfo c subject user ≡ ok email
      → (user.subject ≡ subject)
        × (explicitly_false user.email_verified ≡ false)
        × (email ≡ to_lower (trim_space user.email))
        × (contains_fold trim_space fold c.admin_emails email ≡ true)
  unfolding email_of
  email_of-ok c subject email user h =
      let same : to_lower (trim_space user.email) ≡ email = ground (arith, h) in
      (
        (str_eq_iff user.subject subject).0 (ground (arith, h)),
        ground (arith, h),
        sym same,
        subst (λ e. contains_fold trim_space fold c.admin_emails e ≡ true) same (ground (arith, h)),
      )

  identify-ok :
      (c : Config) (now : ℕ) (code email : Str) (challenge : Challenge)
      → identify hash trim_space to_lower fold idp exchange userinfo c now code challenge ≡ ok email
      → Identified c now code challenge email
  unfolding identify
  identify-ok c now code email challenge h =
      elim (Result-cases (fetched (exchange code challenge.verifier) exchange_failed)) [
        | inr (e, refused) ↦ absurd (ground (arith, h, refused))
        | inl (token, exchanged) ↦
            elim (Result-cases
              (verify_id_token idp now token.id_token c.issuer c.client_id challenge.nonce)) [
                | inr (e, forged) ↦ absurd (ground (arith, h, exchanged, forged))
                | inl (subject, verified) ↦
                    elim (Result-cases (fetched (userinfo token.access_token) bad_profile)) [
                      | inr (e, unread) ↦ absurd (ground (arith, h, exchanged, verified, unread))
                      | inl (user, read) ↦
                          let (same, unmarked, address, listed) =
                            email_of-ok c subject email user
                              (ground (arith, h, exchanged, verified, read)) in
                          (
                            token,
                            user,
                            exchanged,
                            read,
                            verified ∙ ap ok (sym same),
                            unmarked,
                            address,
                            listed,
                          )
                    ]
              ]
      ]

  created-ok :
      (s t : Session) (db db' : Logins) (r : Result Logins)
      → created hash trim_space to_lower fold idp exchange userinfo s db r ≡ (ok t, db')
      → (s ≡ t) × (r ≡ ok db')
  created-ok s t db db' (ok next) h = (ground arith, ground arith)
  created-ok s t db db' (err e) h = absurd (ground arith)

  signed_in-ok :
      (c : Config) (now : ℕ) (raw email : Str) (db db' : Logins) (t : Session)
      → signed_in hash trim_space to_lower fold idp exchange userinfo c now raw db (ok email)
        ≡ (ok t, db')
      → (t.email ≡ email)
        × (t.token_hash ≡ hash raw)
        × (t.expires_at ≡ after_seconds now c.session_ttl)
        × (create_admin_session t db ≡ ok db')
  signed_in-ok c now raw email db db' t h =
      let s : Session = record {
        token_hash = hash raw;
        email = email;
        expires_at = after_seconds now c.session_ttl;
      } in
      let (same, made) = created-ok s t db db' (create_admin_session s db) h in
      (
        ap Session.email (sym same),
        ap Session.token_hash (sym same),
        ap Session.expires_at (sym same),
        subst (λ v. create_admin_session v db ≡ ok db') same made,
      )

  -- The session is that of a sign-in which has spent its challenge.
  abbrev pub Admitted : Config → ℕ → Values → Str → Logins → Logins → Session → Type 0
  Admitted c now q raw db db' s =
      (challenge : Challenge) × (spent : Logins) × (consume_oidc_challenge now
          (hash (get q (codes "state"))) db
        ≡ ok (challenge, spent))
      × (find (of_state (hash (get q (codes "state")))) db.oidc_challenges ≡ some challenge)
      × (now ≤ challenge.expires_at)
      × (find (of_state (hash (get q (codes "state")))) spent.oidc_challenges ≡ none)
      × Identified c now (get q (codes "code")) challenge s.email
      × (s.token_hash ≡ hash raw)
      × (s.expires_at ≡ after_seconds now c.session_ttl)
      × (create_admin_session s spent ≡ ok db')

  consumed_live :
      (now : ℕ) (state : Str) (db : Logins) (r : Challenge × Logins)
      → consume_oidc_challenge now state db ≡ ok r
      → (find (of_state state) db.oidc_challenges ≡ some r.0)
        × (now ≤ r.0.expires_at)
        × (find (of_state state) r.1.oidc_challenges ≡ none)
  unfolding consume_oidc_challenge
  consumed_live now state db r h = elim (Option-cases (find (of_state state) db.oidc_challenges)) [
    | inl missing ↦ absurd (ground arith)
    | inr (c, found) ↦ (
      ground (arith, h, found),
      ground (arith, h, found),
      ground (arith, h, found, find-remove_self (of_state state) db.oidc_challenges),
    )
  ]

  -- A callback signs an administrator in only where it names a challenge that was saved and has not
  -- expired, and that is used up with it, the identity provider's answers identify an address on the list of
  -- administrators, and the new session is for that address and the configured time.
  pub oidc_callback-admits :
      (c : Config) (now : ℕ) (q : Values) (raw : Str) (db db' : Logins) (s : Session)
      → oidc_callback hash trim_space to_lower fold idp exchange userinfo c now q raw db
        ≡ (ok s, db')
      → Admitted c now q raw db db' s
  unfolding oidc_callback
  oidc_callback-admits c now q raw db db' s h =
      elim (Result-cases (consume_oidc_challenge now (hash (get q (codes "state"))) db)) [
        | inr (e, refused) ↦ absurd (ground (arith, h, refused))
        | inl (r, consumed) ↦
            elim (Result-cases (
              identify hash trim_space to_lower fold idp exchange userinfo c now
                (get q (codes "code")) r.0)) [
                  | inr (e, unknown) ↦ absurd (ground (arith, h, consumed, unknown))
                  | inl (email, known) ↦
                      let (address, token, expiry, made) =
                        signed_in-ok c now raw email r.1 db' s
                          (ground (arith, h, consumed, known)) in
                      (
                        r.0,
                        r.1,
                        consumed,
                        (consumed_live now (hash (get q (codes "state"))) db r consumed).0,
                        (consumed_live now (hash (get q (codes "state"))) db r consumed).1,
                        (consumed_live now (hash (get q (codes "state"))) db r consumed).2,
                        subst (λ a. Identified c now (get q (codes "code")) r.0 a) (sym address)
                            (identify-ok c now (get q (codes "code")) email r.0 known),
                        token,
                        expiry,
                        made,
                      )
                ]
      ]
