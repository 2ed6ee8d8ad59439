-- ===== src/Store/Logins/Once.antt =====
-- Histories of the sign-in tables.
use rosemary_virsree.Prelude.{
  ℕ, ◌≡◌, refl, subst, Bool, false, none, List, [], ◌∷◌, arith, inl, inr, Option-cases,
}
use rosemary_virsree.Prelude.Text.{Str, str_eq}
use rosemary_virsree.Prelude.Table.{find, any, remove}
use rosemary_virsree.Prelude.Table.Rows.{find-remove_self}
use rosemary_virsree.Prelude.Results.{Error, Result, ok, err, not_found}
use rosemary_virsree.Store.Logins.{
  Challenge, Session, Logins, of_state, of_token, save_oidc_challenge, consume_oidc_challenge,
  create_admin_session, delete_admin_session, admin_session,
}

-- The statements on the two tables, each at a time.
pub data LoginOp : Type 0 where
  save : Challenge → LoginOp
  consume : ℕ → Str → LoginOp
  create : Session → LoginOp
  delete : Str → LoginOp
  look_up : ℕ → Str → LoginOp

abbrev pub kept : Logins → Result Logins → Logins
kept db (ok next) = next
kept db (err e) = db

abbrev pub kept_with : {A : Type 0} → Logins → Result (A × Logins) → Logins
kept_with db (ok r) = r.1
kept_with db (err e) = db

unfoldable pub apply : LoginOp → Logins → Logins
apply (save c) db = kept db (save_oidc_challenge c db)
apply (consume now hash) db = kept_with db (consume_oidc_challenge now hash db)
apply (create s) db = kept db (create_admin_session s db)
apply (delete hash) db = delete_admin_session hash db
apply (look_up now hash) db = (admin_session now hash db).1

unfoldable pub run : List LoginOp → Logins → Logins
unfolding apply
run [] db = db
run (op ∷ ops) db = run ops (apply op db)

-- The statement makes a row under the hash.
abbrev pub saves : Str → LoginOp → Bool
saves hash (save c) = str_eq c.state_hash hash
saves hash _ = false

abbrev pub creates : Str → LoginOp → Bool
creates hash (create s) = str_eq s.token_hash hash
creates hash _ = false

module _ (hash : Str) where
  abbrev NoChallenge : Logins → Type 0
  NoChallenge db = find (of_state hash) db.oidc_challenges ≡ none

  abbrev NoSession : Logins → Type 0
  NoSession db = find (of_token hash) db.admin_sessions ≡ none

  find-remove-none :
      {A : Type 0} (p q : A → Bool) (xs : List A) → find p xs ≡ none → find p (remove q xs) ≡ none
  unfolding find remove
  find-remove-none p q [] h = refl
  find-remove-none p q (x ∷ xs) h = ground (arith, find-remove-none p q xs)

  apply-NoChallenge :
      (op : LoginOp) (db : Logins)
      → saves hash op ≡ false
      → NoChallenge db
      → NoChallenge (apply op db)
  unfolding apply save_oidc_challenge consume_oidc_challenge create_admin_session
      delete_admin_session admin_session find
  apply-NoChallenge (save c) db h none_left = ground (arith, h, none_left)
  apply-NoChallenge (consume now other) db h none_left =
      ground
        (arith, none_left, find-remove-none (of_state hash) (of_state other) db.oidc_challenges)
  apply-NoChallenge (create s) db h none_left = ground (arith, none_left)
  apply-NoChallenge (delete other) db h none_left = none_left
  apply-NoChallenge (look_up now other) db h none_left = ground (arith, none_left)

  apply-NoSession :
      (op : LoginOp) (db : Logins)
      → creates hash op ≡ false
      → NoSession db
      → NoSession (apply op db)
  unfolding apply save_oidc_challenge consume_oidc_challenge create_admin_session
      delete_admin_session admin_session find
  apply-NoSession (save c) db h none_left = ground (arith, none_left)
  apply-NoSession (consume now other) db h none_left = ground (arith, none_left)
  apply-NoSession (create s) db h none_left = ground (arith, h, none_left)
  apply-NoSession (delete other) db h none_left =
      find-remove-none (of_token hash) (of_token other) db.admin_sessions none_left
  apply-NoSession (look_up now other) db h none_left =
      ground (arith, none_left, find-remove-none (of_token hash) (of_token other) db.admin_sessions)

  run-NoChallenge :
      (ops : List LoginOp) (db : Logins)
      → any (saves hash) ops ≡ false
      → NoChallenge db
      → NoChallenge (run ops db)
  unfolding run any
  run-NoChallenge [] db h none_left = none_left
  run-NoChallenge (op ∷ ops) db h none_left =
      run-NoChallenge ops (apply op db) (ground (arith, h))
        (apply-NoChallenge op db (ground (arith, h)) none_left)

  run-NoSession :
      (ops : List LoginOp) (db : Logins)
      → any (creates hash) ops ≡ false
      → NoSession db
      → NoSession (run ops db)
  unfolding run any
  run-NoSession [] db h none_left = none_left
  run-NoSession (op ∷ ops) db h none_left =
      run-NoSession ops (apply op db) (ground (arith, h))
        (apply-NoSession op db (ground (arith, h)) none_left)

  consume-NoChallenge :
      (now : ℕ) (db : Logins) (r : Challenge × Logins)
      → consume_oidc_challenge now hash db ≡ ok r
      → NoChallenge r.1
  unfolding consume_oidc_challenge
  consume-NoChallenge now db r h = elim (Option-cases (find (of_state hash) db.oidc_challenges)) [
    | inl missing ↦ absurd (ground arith)
    | inr (c, found) ↦
        let left : remove (of_state hash) db.oidc_challenges ≡ r.1.oidc_challenges = ground arith in
        subst (λ cs. find (of_state hash) cs ≡ none) left
          (find-remove_self (of_state hash) db.oidc_challenges)
  ]

  refused-NoSession :
      (now : ℕ) (db : Logins) (e : Error)
      → (admin_session now hash db).0 ≡ err e
      → NoSession (admin_session now hash db).1
  unfolding admin_session
  refused-NoSession now db e h = elim (Option-cases (find (of_token hash) db.admin_sessions)) [
    | inl missing ↦ rw missing missing
    | inr (s, found) ↦ ground (arith, found, h, find-remove_self (of_token hash) db.admin_sessions)
  ]

  absent_refused :
      (now : ℕ) (db : Logins) → NoSession db → (admin_session now hash db).0 ≡ err not_found
  unfolding admin_session
  absent_refused now db none_left = ground (arith, none_left)

  -- A sign-in challenge that has been consumed is refused ever after, as long as no challenge is saved
  -- under its state.
  pub consume_oidc_challenge-once :
      (now later : ℕ) (db : Logins) (r : Challenge × Logins) (ops : List LoginOp)
      → consume_oidc_challenge now hash db ≡ ok r
      → any (saves hash) ops ≡ false
      → consume_oidc_challenge later hash (run ops r.1) ≡ err not_found
  consume_oidc_challenge-once now later db r ops consumed none_saved =
      let gone = run-NoChallenge ops r.1 none_saved (consume-NoChallenge now db r consumed) in
      unfold consume_oidc_challenge in ground (arith, gone)

  -- A session that has been deleted, or that AdminSession has refused because it is missing or has
  -- expired, is refused ever after, as long as no session is created under its hash.
  pub ended_session-refused :
      (now later : ℕ) (db : Logins) (ops : List LoginOp)
      → any (creates hash) ops ≡ false
      → ((admin_session later hash (run ops (delete_admin_session hash db))).0 ≡ err not_found)
        × ((e : Error)
            → (admin_session now hash db).0 ≡ err e
            → (admin_session later hash (run ops (admin_session now hash db).1)).0 ≡ err not_found)
  ended_session-refused now later db ops none_created = (
    absent_refused later (run ops (delete_admin_session hash db)) (
        run-NoSession ops (delete_admin_session hash db) none_created
          (unfold delete_admin_session in find-remove_self (of_token hash) db.admin_sessions)),
    λ e refused. absent_refused later (run ops (admin_session now hash db).1) (
        run-NoSession ops (admin_session now hash db).1 none_created
          (refused-NoSession now db e refused)),
  )
