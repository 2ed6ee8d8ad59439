-- ===== src/Gateway/Auth/Accepts.antt =====
-- Gateway.authenticate: whom it lets in.
use rosemary_virsree.Prelude.{
  ◌≡◌, true, false, Option, some, [], ◌∷◌, ◌++◌, arith, inl, inr, Bool-cases, Option-cases, subst,
}
use rosemary_virsree.Prelude.Int.{ℤ, pos, ◌≤ℤ◌}
use rosemary_virsree.Prelude.Text.{Str, trim_prefix, codes, str_eq, str_eq_iff}
use rosemary_virsree.Prelude.Table.{find}
use rosemary_virsree.Store.Columns.{bucket_is}
use rosemary_virsree.Prelude.Split.{split, cut}
use rosemary_virsree.Prelude.Results.{Result, ok, Result-cases}
use rosemary_virsree.Model.{Db}
use rosemary_virsree.Store.Upload.{require_active_bucket}
use rosemary_virsree.Store.Keys.{access_by_ak}
use rosemary_virsree.Store.Deletion.Active.{access_by_ak-active}
use rosemary_virsree.Gateway.Request.{
  Request, Proof, slash, Values, get, presigned_proof, header_proof, parse_proof, max_expires,
  algorithm, comma, field,
}
use rosemary_virsree.Gateway.Signature.{Crypto}
use rosemary_virsree.Gateway.Auth.{
  Granted, permission_ok, valid_scope, signature_good, verify_request, authenticate,
}
use rosemary_virsree.Gateway.Auth.Window.{InWindow, verify_request_sound}

presigned_proof-expires :
    (q : Values) (p : Proof)
    → presigned_proof q ≡ ok p
    → (pos 1 ≤ℤ p.expires) × (p.expires ≤ℤ max_expires)
unfolding presigned_proof
presigned_proof-expires q p h = elim (Option-cases (cut slash (get q (codes "X-Amz-Credential")))) [
  | inl bad ↦ absurd (ground arith)
  | inr (parts, found) ↦ (ground arith, ground arith)
]

module _ (trim_space : Str → Str) where
  header_proof-plain :
      (r : Request) (p : Proof) → header_proof trim_space r ≡ ok p → p.presigned ≡ false
  unfolding header_proof
  header_proof-plain r p h =
      let given =
        split comma (trim_prefix (get r.header (codes "Authorization")) (algorithm ++ 32 ∷ [])) in
      elim (Option-cases (cut slash (field trim_space (codes "Credential") [] given))) [
        | inl bad ↦ absurd (ground arith)
        | inr (parts, found) ↦ ground arith
      ]

  parse_proof-expires :
      (r : Request) (p : Proof)
      → parse_proof trim_space r ≡ ok p
      → p.presigned ≡ true
      → (pos 1 ≤ℤ p.expires) × (p.expires ≤ℤ max_expires)
  unfolding parse_proof
  parse_proof-expires r p h signed =
      elim (Bool-cases (str_eq (get r.query (codes "X-Amz-Algorithm")) algorithm)) [
        | inl presigned ↦ presigned_proof-expires r.query p (ground arith)
        | inr plain ↦ absurd (ground (arith, header_proof-plain r p))
      ]

module _ (lib : Crypto) (parse_time : Str → Option ℤ) (trim_space : Str → Str)
    (unseal : Str → Result Str) where
  -- The request proves that it comes from the holder of the key.
  abbrev pub Accepted : ℤ → Request → Str → Str → Db → Granted → Type 0
  Accepted now r permission slug db g =
      (p : Proof) × (parse_proof trim_space r ≡ ok p)
      × (find (λ k. str_eq k.ak p.access) db.access_keys ≡ some g.key)
      × (find (bucket_is g.key.bucket_id) db.buckets ≡ some g.bucket)
      × (g.key.revoked ≡ false)
      × (g.bucket.slug ≡ slug)
      × (g.key.bucket_id ≡ g.bucket.id)
      × (require_active_bucket g.bucket.id db ≡ ok tt)
      × (permission_ok g.key.permissions permission ≡ true)
      × (unseal g.key.secret_cipher ≡ ok g.secret_key)
      × ((t : ℤ) × (parse_time p.amz_date ≡ some t) × InWindow now p t)
      × (valid_scope (split slash p.scope) ≡ true)
      × (signature_good lib parse_time r p g.secret_key ≡ true)
      × (p.presigned ≡ true → (pos 1 ≤ℤ p.expires) × (p.expires ≤ℤ max_expires))

  -- The gateway lets a request in only with a proof that names the access key of a row. The key and the
  -- bucket that it grants are that row and the row of its bucket; the row says that the key is not
  -- revoked, and the bucket is not being deleted and has the slug that is asked for; the key's
  -- permissions contain the one that is asked for, the request is signed with the key's secret for the S3 service and
  -- within its time window, and a presigned request is good for one second to seven days.
  pub authenticate_accepts :
      (now : ℤ) (r : Request) (permission slug : Str) (db : Db) (g : Granted)
      → authenticate lib parse_time trim_space unseal now r permission slug db ≡ ok g
      → Accepted now r permission slug db g
  unfolding authenticate
  authenticate_accepts now r permission slug db g h =
      elim (Result-cases (parse_proof trim_space r)) [
        | inr (e, unproved) ↦ absurd (ground arith)
        | inl (p, proved) ↦ elim (Result-cases (access_by_ak p.access db)) [
          | inr (e, unknown) ↦ absurd (ground arith)
          | inl (found, known) ↦ elim (Result-cases (unseal found.0.secret_cipher)) [
            | inr (e, sealed) ↦ absurd (ground arith)
            | inl (secret, opened) ↦
                elim (Result-cases (verify_request lib parse_time now r p secret)) [
                  | inr (e, unsigned) ↦ absurd (ground arith)
                  | inl (_, verified) ↦
                      let active = access_by_ak-active p.access db found.0 found.1 known in
                      let sound = verify_request_sound lib parse_time now r p secret verified in
                      let presigned = parse_proof-expires trim_space r p proved in
                      let granted : g ≡ record {
                        secret_key = secret;
                        bucket = found.1;
                        key = found.0;
                        expires = p.expires;
                      } =
                        ground arith in
                      let alive : found.0.revoked ≡ false = ground arith in
                      let slug_ok : found.1.slug ≡ slug =
                        ground (arith, str_eq_iff found.1.slug slug) in
                      let permitted : permission_ok found.0.permissions permission ≡ true =
                        ground arith in
                      rw granted (
                        p,
                        proved,
                        active.0,
                        active.1,
                        alive,
                        slug_ok,
                        active.3,
                        subst (λ i. require_active_bucket i db ≡ ok tt) active.3 active.4,
                        permitted,
                        opened,
                        sound.0,
                        sound.1,
                        sound.2,
                        presigned,
                      )
                ]
          ]
        ]
      ]
