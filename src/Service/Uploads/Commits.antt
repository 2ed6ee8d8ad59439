-- ===== src/Service/Uploads/Commits.antt =====
-- The service's CommitUpload.
use rosemary_virsree.Prelude.{ℕ, ◌≡◌, sym, ap, ◌∙◌, inl, inr, arith, Option-cases}
use rosemary_virsree.Prelude.Text.{Str}
use rosemary_virsree.Prelude.Results.{Error, ok, err, Result-cases}
use rosemary_virsree.Model.{Object}
use rosemary_virsree.Store.Upload.{get_upload}
use rosemary_virsree.Store.Commit.{Committed, commit_upload}
use rosemary_virsree.Service.World.{Remote, World}
use rosemary_virsree.Service.Backends.{Manager, backend}
use rosemary_virsree.Service.Uploads.{physical, final_generation, commit}

module _ {W : Type 0} (remote : Remote W) (m : Manager) where
  -- Whatever the remote stores answer, the service's CommitUpload leaves the database as it was
  -- where it returns an error.
  pub commit-error_keeps :
      (now : ℕ) (bucket id key : Str) (w w' : World W) (e : Error)
      → commit remote m now bucket id key w ≡ (err e, w')
      → w'.db ≡ w.db
  unfolding commit
  commit-error_keeps now bucket id key w w' e h = ground arith

  -- Where the service's CommitUpload succeeds, the store has committed the pending upload with the
  -- size that it had reserved, under its final key in the bucket's namespace.
  pub commit-committed :
      (now : ℕ) (bucket id key : Str) (w w' : World W) (o : Object)
      → commit remote m now bucket id key w ≡ (ok o, w')
      → (u : Object) × (etag : Str) × (r : Committed) × (get_upload bucket id key w.db ≡ ok u)
        × (commit_upload now
              (record u {
                physical_key =
                    physical bucket u.logical_key (final_generation remote m now u.generation);
              })
              etag
              u.size
              w.db
            ≡ ok r)
        × (r.object ≡ o)
        × (w'.db ≡ r.db)
  unfolding commit
  commit-committed now bucket id key w w' o h =
      elim (Result-cases (get_upload bucket id key w.db)) [
        | inr (e, missing) ↦ absurd (ground arith)
        | inl (u, found) ↦ elim (Result-cases (backend m u.source_id)) [
          | inr (e, missing) ↦ absurd (ground arith)
          | inl (s, backed) ↦
              let staged = remote.head s u.physical_key w.remote in
              let final =
                physical bucket u.logical_key (final_generation remote m now u.generation) in
              let copied = (remote.copy s u.physical_key final w.remote).1 in
              elim (Option-cases staged) [
                | inl missing ↦ absurd (ground arith)
                | inr (before, headed) ↦ elim (Option-cases (remote.head s final copied)) [
                  | inl missing ↦ absurd (ground arith)
                  | inr (after, promoted) ↦
                      elim (Result-cases (
                        commit_upload now (record u { physical_key = final }) after.etag after.size
                          w.db)) [
                            | inr (e, refused) ↦ absurd (ground arith)
                            | inl (r, stored) ↦
                                let same : after.size ≡ u.size = ground arith in
                                (
                                  u,
                                  after.etag,
                                  r,
                                  found,
                                  ap
                                        (λ n.
                                          commit_upload now (record u { physical_key = final })
                                            after.etag n w.db)
                                        (sym same)
                                      ∙ stored,
                                  ground arith,
                                  ground arith,
                                )
                          ]
                ]
              ]
        ]
      ]
