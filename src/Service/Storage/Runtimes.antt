-- ===== src/Service/Storage/Runtimes.antt =====
-- The sources in memory: what put_runtime changes.
use rosemary_virsree.Prelude.{
  ◌≡◌, refl, true, false, some, List, [], ◌∷◌, arith, inl, inr, Bool-cases,
}
use rosemary_virsree.Prelude.Text.{Str, str_eq, str_eq_iff, str_eq_refl}
use rosemary_virsree.Prelude.Table.{find, any, update}
use rosemary_virsree.Service.Backends.{Runtime, Manager, runtime_is}
use rosemary_virsree.Service.Storage.Sources.{put_runtime, kept}

replaced_here :
    (r : Runtime) (ss : List Runtime)
    → any (runtime_is r.meta.id) ss ≡ true
    → find (runtime_is r.meta.id) (update (runtime_is r.meta.id) (λ _. r) ss) ≡ some r
unfolding any find update
replaced_here r [] h = absurd (ground (arith, h))
replaced_here r (s ∷ ss) h = ground (arith, h, replaced_here r ss, str_eq_refl r.meta.id)

replaced_elsewhere :
    (id : Str) (r : Runtime) (ss : List Runtime)
    → str_eq r.meta.id id ≡ false
    → find (runtime_is id) (update (runtime_is r.meta.id) (λ _. r) ss) ≡ find (runtime_is id) ss
unfolding find update
replaced_elsewhere id r [] h = refl
replaced_elsewhere id r (s ∷ ss) h = elim (Bool-cases (str_eq s.meta.id r.meta.id)) [
  | inr kept ↦ ground (arith, kept, replaced_elsewhere id r ss h)
  | inl hit ↦
      let same = (str_eq_iff s.meta.id r.meta.id).0 hit in
      let apart : str_eq s.meta.id id ≡ false = rw same h in
      ground (arith, hit, apart, h, replaced_elsewhere id r ss h)
]

pub put-same :
    (r : Runtime) (m : Manager) → find (runtime_is r.meta.id) (put_runtime r m).sources ≡ some r
unfolding put_runtime
put-same r m = elim (Bool-cases (any (runtime_is r.meta.id) m.sources)) [
  | inl old ↦ rw old (replaced_here r m.sources old)
  | inr new ↦ rw new (unfold find in rw (str_eq_refl r.meta.id) refl)
]

pub put-other :
    (id : Str) (r : Runtime) (m : Manager)
    → str_eq r.meta.id id ≡ false
    → find (runtime_is id) (put_runtime r m).sources ≡ find (runtime_is id) m.sources
unfolding put_runtime
put-other id r m h = elim (Bool-cases (any (runtime_is r.meta.id) m.sources)) [
  | inl old ↦ rw old (replaced_elsewhere id r m.sources h)
  | inr new ↦ rw new (unfold find in rw h refl)
]
