-- ===== src/Provider/WebDav/Traces.antt =====
-- What a probe of WebDAV leaves behind.
use rosemary_virsree.Prelude.{
  Bool, false, not, ◌&&◌, ◌||◌, ◌==◌, ◌++◌, ◌≡◌, refl, ap, ◌∙◌, Option, none, some, List, [], ◌∷◌,
  inl, inr, Bool-cases,
}
use rosemary_virsree.Prelude.Text.{Str, codes, str_eq, has_prefix}
use rosemary_virsree.Prelude.Split.{split}
use rosemary_virsree.Prelude.Results.{
  Result, ok, err, remote_failed, backend_not_ready, probe_failed,
}
use rosemary_virsree.Prelude.Effects.{Effect, require, ignore, ◌>>◌}
use rosemary_virsree.Prelude.Effects.Leaves.{Leaves, >>=-Leaves, require-Leaves, finally-Leaves}
use rosemary_virsree.Provider.Purge.{slash}
use rosemary_virsree.Provider.Paths.{trim_left, dir, join_path}
use rosemary_virsree.Provider.Backend.{Response, Head, is_bad, is_probe}
use rosemary_virsree.Provider.WebDav.{
  Call, WebDav, credentials, object_url, request, responded, make_collection, make_parents,
  ensure_parents, head, delete, copy, put, get, still_there, probe_steps, probe,
}

-- The URL, or one below it.
abbrev pub covers : Str → Str → Bool
covers url u = str_eq u url || has_prefix u (url ++ slash ∷ [])

-- The Destination of a COPY, which is its first header.
abbrev pub destination : List (Str × Str) → Str
destination [] = []
destination ((name, value) ∷ headers) = value

-- The calls that may change the file at a URL.
abbrev pub may_write : Call → Str → Bool
may_write c u =
    ((str_eq c.method (codes "PUT") || str_eq c.method (codes "DELETE")) && covers c.url u)
    || (str_eq c.method (codes "COPY") && covers (destination c.headers) u)

abbrev pub copied : Str → Str
copied key = key ++ codes "-copy"

module _ {W C : Type 0} (http : Call → W → Option Response × W) (url_of : Str → Str) (d : WebDav)
    (content : W → Str → C) where
  module _
      (frame : (c : Call) (u : Str) (w : W)
        → may_write c u ≡ false
        → content (http c w).1 u ≡ content w u)
      (u : Str) where
    abbrev Keeps : {A : Type 0} → Effect W A → Type 0
    Keeps = Leaves (λ w. content w u)

    responded_state : (r : Option Response × W) → (responded r).1 ≡ r.1
    responded_state (none, w) = refl
    responded_state (some r, w) = refl

    abbrev call : Str → Str → Str → List (Str × Str) → Call
    call method key body headers = record {
      method = method;
      url = object_url http url_of d key;
      user = credentials d;
      body = body;
      headers = headers;
    }

    request-Keeps :
        (method key body : Str) (headers : List (Str × Str))
        → may_write (call method key body headers) u ≡ false
        → Keeps (request http url_of d method key body headers)
    unfolding request
    request-Keeps method key body headers harmless w =
        ap (λ s. content s u) (responded_state (http (call method key body headers) w))
        ∙ frame (call method key body headers) u w harmless

    make_collection-Keeps : (path : Str) → Keeps (make_collection http url_of d path)
    unfolding make_collection
    make_collection-Keeps path =
        >>=-Leaves (λ w. content w u) (request http url_of d (codes "MKCOL") path [] []) _
          (request-Keeps (codes "MKCOL") path [] [] (unfold str_eq in refl))
          (λ r. require-Leaves (λ w. content w u) (is_bad r && not (r.status == 405)) remote_failed)

    make_parents-Keeps : (ps : List Str) (cur : Str) → Keeps (make_parents http url_of d cur ps)
    unfolding make_parents
    make_parents-Keeps [] cur w = refl
    make_parents-Keeps (p ∷ ps) cur w = elim (Bool-cases (str_eq p [])) [
      | inl skipped ↦ rw (skipped, make_parents) (make_parents-Keeps ps cur w)
      | inr named ↦
          rw (named, make_parents)
            (>>=-Leaves (λ w. content w u) (make_collection http url_of d (join_path cur p)) _
              (make_collection-Keeps (join_path cur p))
              (λ _. make_parents-Keeps ps (join_path cur p)) w)
    ]

    ensure_parents-Keeps : (key : Str) → Keeps (ensure_parents http url_of d key)
    unfolding ensure_parents
    ensure_parents-Keeps key w = elim (Bool-cases (str_eq (dir (trim_left key)) (codes "."))) [
      | inl top ↦ rw top refl
      | inr deep ↦ rw deep (make_parents-Keeps (split slash (dir (trim_left key))) [] w)
    ]

    head-Keeps : (key : Str) → Keeps (head http url_of d key)
    unfolding head
    head-Keeps key =
        >>=-Leaves (λ w. content w u) (request http url_of d (codes "HEAD") key [] []) _
          (request-Keeps (codes "HEAD") key [] [] (unfold str_eq in refl))
          (λ r.
            >>=-Leaves (λ w. content w u) (require (is_bad r) remote_failed) _
              (require-Leaves (λ w. content w u) (is_bad r) remote_failed) (λ _ w. refl))

    get-Keeps : (key : Str) → Keeps (get http url_of d key)
    unfolding get
    get-Keeps key =
        >>=-Leaves (λ w. content w u) (request http url_of d (codes "GET") key [] []) _
          (request-Keeps (codes "GET") key [] [] (unfold str_eq in refl))
          (λ r.
            >>=-Leaves (λ w. content w u) (require (is_bad r) remote_failed) _
              (require-Leaves (λ w. content w u) (is_bad r) remote_failed) (λ _ w. refl))

    delete-Keeps :
        (key : Str)
        → covers (object_url http url_of d key) u ≡ false
        → Keeps (delete http url_of d key)
    unfolding delete
    delete-Keeps key apart =
        >>=-Leaves (λ w. content w u) (request http url_of d (codes "DELETE") key [] []) _
          (request-Keeps (codes "DELETE") key [] [] (unfold str_eq in rw apart refl))
          (λ r. require-Leaves (λ w. content w u) (is_bad r && not (r.status == 404)) remote_failed)

    copy-Keeps :
        (from to : Str)
        → covers (object_url http url_of d to) u ≡ false
        → Keeps (copy http url_of d from to)
    unfolding copy
    copy-Keeps from to apart =
        >>=-Leaves (λ w. content w u) (ensure_parents http url_of d to) _ (ensure_parents-Keeps to)
          (λ _.
            >>=-Leaves (λ w. content w u)
              (request http url_of d (codes "COPY") from [] (
                (codes "Destination", object_url http url_of d to)
                ∷ (codes "Overwrite", codes "T")
                ∷ []))
              _ (request-Keeps (codes "COPY") from [] _ (unfold str_eq in rw apart refl))
              (λ r. require-Leaves (λ w. content w u) (is_bad r) remote_failed))

    put-Keeps :
        (key body size content_type : Str)
        → covers (object_url http url_of d key) u ≡ false
        → Keeps (put http url_of d key body size content_type)
    unfolding put
    put-Keeps key body size content_type apart =
        >>=-Leaves (λ w. content w u) (ensure_parents http url_of d key) _
          (ensure_parents-Keeps key)
          (λ _.
            >>=-Leaves (λ w. content w u)
              (request http url_of d (codes "PUT") key body
                ((codes "Content-Type", content_type) ∷ (codes "Content-Length", size) ∷ []))
              _ (request-Keeps (codes "PUT") key body _ (unfold str_eq in rw apart refl))
              (λ r. require-Leaves (λ w. content w u) (is_bad r) remote_failed))

    still_there_state : (r : Result Head × W) → (still_there http url_of d r).1 ≡ r.1
    still_there_state (ok h, w) = refl
    still_there_state (err e, w) = refl

    module _ (key copy_key : Str) (apart : covers (object_url http url_of d key) u ≡ false)
        (copy_apart : covers (object_url http url_of d copy_key) u ≡ false) where
      gone-Keeps : Keeps (λ w. still_there http url_of d (head http url_of d key w))
      gone-Keeps w =
          ap (λ s. content s u) (still_there_state (head http url_of d key w)) ∙ head-Keeps key w

      gone_after_deletes-Keeps : Keeps (do
        delete http url_of d copy_key
        delete http url_of d key
        λ w. still_there http url_of d (head http url_of d key w))
      gone_after_deletes-Keeps =
          >>=-Leaves (λ w. content w u) (delete http url_of d copy_key) _
            (delete-Keeps copy_key copy_apart)
            (λ _.
              >>=-Leaves (λ w. content w u) (delete http url_of d key) _ (delete-Keeps key apart)
                (λ _. gone-Keeps))

      copied-Keeps : Keeps (do
        copy http url_of d key copy_key
        head http url_of d copy_key
        delete http url_of d copy_key
        delete http url_of d key
        λ w. still_there http url_of d (head http url_of d key w))
      copied-Keeps =
          >>=-Leaves (λ w. content w u) (copy http url_of d key copy_key) _
            (copy-Keeps key copy_key copy_apart)
            (λ _.
              >>=-Leaves (λ w. content w u) (head http url_of d copy_key) _ (head-Keeps copy_key)
                (λ _. gone_after_deletes-Keeps))

      probe_steps-Keeps : Keeps (probe_steps http url_of d key copy_key)
      unfolding probe_steps
      probe_steps-Keeps =
          >>=-Leaves (λ w. content w u) (head http url_of d key) _ (head-Keeps key)
            (λ _.
              >>=-Leaves (λ w. content w u) (get http url_of d key) _ (get-Keeps key)
                (λ r.
                  >>=-Leaves (λ w. content w u) (require (not (is_probe r.0)) probe_failed) _
                    (require-Leaves (λ w. content w u) (not (is_probe r.0)) probe_failed)
                    (λ _. copied-Keeps)))

    -- Where a call changes at most the file at its URL and those below, a COPY those at its destination,
    -- and only PUT, DELETE and COPY change files, Probe leaves every file as it was that is neither
    -- one of its two keys nor below them, whatever the server answers.
    pub probe-outside :
        (key : Str) (w : W)
        → covers (object_url http url_of d key) u ≡ false
        → covers (object_url http url_of d (copied key)) u ≡ false
        → content (probe http url_of d key w).1 u ≡ content w u
    unfolding probe
    probe-outside key w apart copy_apart =
        >>=-Leaves (λ w. content w u) (require (not d.ready) backend_not_ready) _
          (require-Leaves (λ w. content w u) (not d.ready) backend_not_ready)
          (λ _.
            >>=-Leaves (λ w. content w u)
              (put http url_of d key (codes "probe") (codes "5") (codes "text/plain")) _
              (put-Keeps key (codes "probe") (codes "5") (codes "text/plain") apart)
              (λ _.
                finally-Leaves (λ w. content w u)
                  (do ignore (delete http url_of d (copied key)); ignore (delete http url_of d key))
                  (probe_steps http url_of d key (copied key))
                  (λ s.
                    delete-Keeps key apart (delete http url_of d (copied key) s).1
                    ∙ delete-Keeps (copied key) copy_apart s)
                  (probe_steps-Keeps key (copied key) apart copy_apart)))
          w
