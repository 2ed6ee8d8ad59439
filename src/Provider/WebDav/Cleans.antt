-- ===== src/Provider/WebDav/Cleans.antt =====
-- The files of a probe of WebDAV after it.
use rosemary_virsree.Prelude.{
  true, not, ◌&&◌, ◌==◌, ◌≡◌, ◌≢◌, ◌≤◌, ◌<◌, ◌⊎◌, inl, inr, refl, ap, subst, ◌∙◌, Option, none,
  some, [], arith, Bool-cases, Option-cases,
}
use rosemary_virsree.Prelude.Text.{Str, codes}
use rosemary_virsree.Prelude.Results.{Result, ok, remote_failed, backend_not_ready}
use rosemary_virsree.Prelude.Effects.{Effect, proceed, require, ignore, finally, ◌>>◌}
use rosemary_virsree.Prelude.Effects.Leaves.{require-Leaves}
use rosemary_virsree.Provider.Backend.{Response, is_bad}
use rosemary_virsree.Provider.WebDav.{
  Call, WebDav, credentials, object_url, request, responded, delete, put, probe_steps, probe,
}
use rosemary_virsree.Provider.WebDav.Traces.{copied}

module _ {W F : Type 0} (http : Call → W → Option Response × W) (url_of : Str → Str) (d : WebDav)
    (file : W → Str → Option F) where
  -- The call that deletes a key.
  abbrev pub erase : Str → Call
  erase key = record {
    method = codes "DELETE";
    url = object_url http url_of d key;
    user = credentials d;
    body = [];
    headers = [];
  }

  checked_state :
      (r : Option Response × W)
      → (proceed (λ a. require (is_bad a && not (a.status == 404)) remote_failed) (responded r)).1
        ≡ r.1
  checked_state (none, w) = refl
  checked_state (some a, w) =
      require-Leaves (λ s. s) (is_bad a && not (a.status == 404)) remote_failed w

  delete_state : (key : Str) (w : W) → (delete http url_of d key w).1 ≡ (http (erase key) w).1
  unfolding delete request
  delete_state key w = checked_state (http (erase key) w)

  -- The server refuses the deletion: it does not answer, or neither with a status below 300 nor 404.
  abbrev pub Refuses : Str → W → Type 0
  Refuses key w =
      (a : Response) → (http (erase key) w).0 ≡ some a → (300 ≤ a.status) × (a.status ≢ 404)

  module _
      (removes : (c : Call) (w : W) (a : Response)
        → c.method ≡ codes "DELETE"
        → (http c w).0 ≡ some a
        → (a.status < 300) ⊎ (a.status ≡ 404)
        → file (http c w).1 c.url ≡ none)
      (stays : (c : Call) (u : Str) (w : W)
        → c.method ≡ codes "DELETE"
        → file w u ≡ none
        → file (http c w).1 u ≡ none) where
    erased :
        (key : Str) (w : W)
        → (file (http (erase key) w).1 (object_url http url_of d key) ≡ none) ⊎ Refuses key w
    erased key w = elim (Option-cases (http (erase key) w).0) [
      | inl silent ↦ inr (λ a answer. absurd (ground (arith, silent, answer)))
      | inr (a, answer) ↦ elim (Bool-cases (is_bad a)) [
        | inr good ↦ inl (removes (erase key) w a refl answer (inl (ground (arith, good))))
        | inl bad ↦ elim (Bool-cases (a.status == 404)) [
          | inl missing ↦ inl (removes (erase key) w a refl answer (inr (ground (arith, missing))))
          | inr there ↦ inr (λ b same.
              let e : a ≡ b = ground (arith, answer, same) in
              subst (λ (c : Response). (300 ≤ c.status) × (c.status ≢ 404)) e
                (ground (arith, bad), ground (arith, there)))
        ]
      ]
    ]

    abbrev upload : Str → Effect W (Unit {0})
    upload key = put http url_of d key (codes "probe") (codes "5") (codes "text/plain")

    abbrev cleaned : Str → Effect W (Unit {0})
    cleaned key =
        finally (do ignore (delete http url_of d (copied key)); ignore (delete http url_of d key))
          (probe_steps http url_of d key (copied key))

    -- The state after a probe that has uploaded its file.
    probe_state :
        (key : Str) (w : W)
        → (upload key w).0 ≡ ok tt
        → d.ready ≡ true
        → (probe http url_of d key w).1 ≡ (cleaned key (upload key w).1).1
    unfolding probe
    probe_state key w uploaded ready =
        ap (λ b. (proceed (λ _. upload key >> cleaned key) (require (not b) backend_not_ready w)).1)
          ready
        ∙ ap (λ (r : Result (Unit {0})). (proceed (λ _. cleaned key) (r, (upload key w).1)).1)
            uploaded

    pub probe-cleans :
        (key : Str) (w : W)
        → (put http url_of d key (codes "probe") (codes "5") (codes "text/plain") w).0 ≡ ok tt
        → d.ready ≡ true
        → (s : W) × ((probe http url_of d key w).1
            ≡ (http (erase key) (http (erase (copied key)) s).1).1)
          × ((file (probe http url_of d key w).1 (object_url http url_of d (copied key)) ≡ none)
              ⊎ Refuses (copied key) s)
          × ((file (probe http url_of d key w).1 (object_url http url_of d key) ≡ none)
              ⊎ Refuses key (http (erase (copied key)) s).1)
    probe-cleans key w uploaded ready =
        let s = (probe_steps http url_of d key (copied key) (upload key w).1).1 in
        let after = (http (erase (copied key)) s).1 in
        let ends =
          probe_state key w uploaded ready
          ∙ (delete_state key (delete http url_of d (copied key) s).1
              ∙ ap (λ x. (http (erase key) x).1) (delete_state (copied key) s)) in
        (
          s,
          ends,
          elim (erased (copied key) s) [
            | inr refused ↦ inr refused
            | inl gone ↦ inl (
                ap (λ x. file x (object_url http url_of d (copied key))) ends
                ∙ stays (erase key) (object_url http url_of d (copied key)) after refl gone)
          ],
          elim (erased key after) [
            | inr refused ↦ inr refused
            | inl gone ↦ inl (ap (λ x. file x (object_url http url_of d key)) ends ∙ gone)
          ],
        )
