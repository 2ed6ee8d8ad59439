-- ===== src/Service/Storage/Restart.antt =====
-- The sources in memory and those that Load reads after a restart.
use rosemary_virsree.Prelude.{
  ℕ, ◌≤◌, ◌≡◌, refl, ap, sym, ◌∙◌, subst, none, some, List, [], ◌∷◌, arith, inl, inr, Bool-cases,
  Option-cases,
}
use rosemary_virsree.Prelude.Text.{Str, str_eq_iff}
use rosemary_virsree.Prelude.Table.{find, count}
use rosemary_virsree.Prelude.Table.Rows.{find-holds}
use rosemary_virsree.Prelude.Sorting.Counts.{count-sort}
use rosemary_virsree.Prelude.Sorting.Finds.{find-sort}
use rosemary_virsree.Prelude.Results.{Result, ok, err, Result-cases}
use rosemary_virsree.Model.{StorageSource, Db}
use rosemary_virsree.Store.Columns.{source_is}
use rosemary_virsree.Store.Sources.{
  create_storage_source, get_storage_source, update_storage_source,
}
use rosemary_virsree.Service.Backends.{
  Manager, runtime_is, list_storage_sources, ranks_before, validate_primary_capacity,
}
use rosemary_virsree.Service.Storage.{Input, StoredConfig, prepare, known_kind}
use rosemary_virsree.Service.Storage.Sources.{
  Tools, put_runtime, runtime, kept, new_source, changed_source, load_sources, load, add,
  reconfigure_source,
}
use rosemary_virsree.Service.Storage.Runtimes.{put-same, put-other}
use rosemary_virsree.Service.Storage.Rows.{create-found, update-found}

ok_injective : {A : Type 0} {x y : A} → ok x ≡ ok y → x ≡ y
ok_injective h = ground (arith, h)

module _ (tools : Tools) where
  -- Rows of other sources leave a source's runtime as it is.
  load-other :
      (id : Str) (vs : List StorageSource) (m m' : Manager)
      → count (source_is id) vs ≡ 0
      → load_sources tools vs m ≡ ok m'
      → find (runtime_is id) m'.sources ≡ find (runtime_is id) m.sources
  unfolding load_sources count
  load-other id [] m m' none_left h =
      let same : m ≡ m' = ok_injective h in
      ap (λ (k : Manager). find (runtime_is id) k.sources) (sym same)
  load-other id (v ∷ vs) m m' none_left h = elim (Result-cases (tools.unseal v.config_cipher)) [
    | inr (e, sealed) ↦ absurd (ground (arith, h, sealed))
    | inl (c, opened) ↦ elim (Result-cases (known_kind tools.lib v.kind)) [
      | inr (e, unknown) ↦ absurd (ground (arith, h, opened, unknown))
      | inl (_, kind) ↦
          load-other id vs (put_runtime (runtime tools v c) m) m' (ground (arith, none_left))
            (ground (arith, h, opened, kind))
          ∙ put-other id (runtime tools v c) m (ground (arith, none_left))
    ]
  ]

  load-found :
      (id : Str) (vs : List StorageSource) (m m' : Manager) (v : StorageSource) (c : StoredConfig)
      → count (source_is id) vs ≤ 1
      → find (source_is id) vs ≡ some v
      → tools.unseal v.config_cipher ≡ ok c
      → load_sources tools vs m ≡ ok m'
      → find (runtime_is id) m'.sources ≡ some (runtime tools v c)
  unfolding load_sources count find
  load-found id [] m m' v c once found opened h = absurd (ground (arith, found))
  load-found id (w ∷ vs) m m' v c once found opened h =
      elim (Result-cases (tools.unseal w.config_cipher)) [
        | inr (e, sealed) ↦ absurd (ground (arith, h, sealed))
        | inl (d, read) ↦ elim (Result-cases (known_kind tools.lib w.kind)) [
          | inr (e, unknown) ↦ absurd (ground (arith, h, read, unknown))
          | inl (_, kind) ↦
              let next = put_runtime (runtime tools w d) m in
              let loaded : load_sources tools vs next ≡ ok m' = ground (arith, h, read, kind) in
              elim (Bool-cases (source_is id w)) [
                | inr other ↦
                    load-found id vs next m' v c (ground (arith, once, other))
                      (ground (arith, found, other)) opened loaded
                | inl here ↦
                    let row : w ≡ v = ground (arith, found, here) in
                    let same_id : w.id ≡ id = (str_eq_iff w.id id).0 here in
                    let config : d ≡ c = ok_injective (
                      sym read
                      ∙ ap (λ (x : StorageSource). tools.unseal x.config_cipher) row
                      ∙ opened) in
                    load-other id vs next m' (ground (arith, once, here)) loaded
                    ∙ (subst (λ i. find (runtime_is i) next.sources ≡ some (runtime tools w d))
                          same_id (put-same (runtime tools w d) m)
                        ∙ ap some (ap (λ x. runtime tools x d) row ∙ ap (runtime tools v) config))
              ]
        ]
      ]

  kept-ok :
      (w v : StorageSource) (c : StoredConfig) (m m' : Manager) (r : Result Db) (db : Db)
      → kept tools w c m r ≡ ok (v, m', db)
      → (w ≡ v) × (put_runtime (runtime tools w c) m ≡ m') × (r ≡ ok db)
  kept-ok w v c m m' (err e) db h = absurd (ground arith)
  kept-ok w v c m m' (ok next) db h =
      let same = ok_injective h in (ap (λ r. r.0) same, ap (λ r. r.1) same, ap (λ r. ok r.2) same)

  -- What Add has sealed, put in memory and written.
  add-ok :
      (now : ℕ) (id : Str) (input : Input) (m m' : Manager) (db db' : Db) (v : StorageSource)
      → add tools now id input m db ≡ ok (v, m', db')
      → (i : Input) × (c : StoredConfig) × (cipher : Str) × (tools.seal c ≡ ok cipher)
        × (new_source tools now id i cipher ≡ v)
        × (put_runtime (runtime tools (new_source tools now id i cipher) c) m ≡ m')
        × (create_storage_source (new_source tools now id i cipher) db ≡ ok db')
  unfolding add
  add-ok now id input m m' db db' v h =
      elim (Result-cases (prepare tools.lib tools.probe input none)) [
        | inr (e, refused) ↦ absurd (ground (arith, h, refused))
        | inl (p, prepared) ↦ elim (Result-cases (tools.seal p.1)) [
          | inr (e, unsealed) ↦ absurd (ground (arith, h, prepared, unsealed))
          | inl (cipher, sealed) ↦
              let w = new_source tools now id p.0 cipher in
              elim (Result-cases (validate_primary_capacity w db)) [
                | inr (e, limited) ↦ absurd (ground (arith, h, prepared, sealed, limited))
                | inl (_, free) ↦
                    let last : kept tools w p.1 m (create_storage_source w db) ≡ ok (v, m', db') =
                      ground (arith, h, prepared, sealed, free) in
                    let (same, put, made) =
                      kept-ok w v p.1 m m' (create_storage_source w db) db' last in
                    (p.0, p.1, cipher, sealed, same, put, made)
              ]
        ]
      ]

  -- What Update has found, sealed, put in memory and written.
  reconfigure-ok :
      (id : Str) (input : Input) (m m' : Manager) (db db' : Db) (v : StorageSource)
      → reconfigure_source tools id input m db ≡ ok (v, m', db')
      → (current : StorageSource) × (i : Input) × (c : StoredConfig) × (cipher : Str) × (tools.seal
            c
          ≡ ok cipher)
        × (put_runtime (runtime tools (changed_source tools current i cipher) c) m ≡ m')
        × (find (source_is id) db.sources ≡ some current)
        × (update_storage_source (changed_source tools current i cipher) db ≡ ok db')
  unfolding reconfigure_source get_storage_source
  reconfigure-ok id input m m' db db' v h = elim (Option-cases (find (source_is id) db.sources)) [
    | inl missing ↦ absurd (ground (arith, h, missing))
    | inr (current, found) ↦ elim (Result-cases (tools.unseal current.config_cipher)) [
      | inr (e, sealed) ↦ absurd (ground (arith, h, found, sealed))
      | inl (old, opened) ↦
          elim (Result-cases
            (prepare tools.lib tools.probe (record input { kind = current.kind }) (some old))) [
              | inr (e, refused) ↦ absurd (ground (arith, h, found, opened, refused))
              | inl (p, prepared) ↦ elim (Result-cases (tools.seal p.1)) [
                | inr (e, unsealed) ↦ absurd (ground (arith, h, found, opened, prepared, unsealed))
                | inl (cipher, sealed) ↦
                    let w = changed_source tools current p.0 cipher in
                    elim (Result-cases (validate_primary_capacity w db)) [
                      | inr (e, limited) ↦
                          absurd (ground (arith, h, found, opened, prepared, sealed, limited))
                      | inl (_, free) ↦
                          let last : kept tools w p.1 m (update_storage_source w db)
                              ≡ ok (v, m', db') =
                            ground (arith, h, found, opened, prepared, sealed, free) in
                          let (same, put, made) =
                            kept-ok w v p.1 m m' (update_storage_source w db) db' last in
                          (current, p.0, p.1, cipher, sealed, put, found, made)
                    ]
              ]
            ]
    ]
  ]

  module _
      (codec : (c : StoredConfig) (s : Str) → tools.seal c ≡ ok s → tools.unseal s ≡ ok c) where
    -- A row is loaded as the runtime of the configuration that was sealed into it.
    stored-load :
        (v : StorageSource) (c : StoredConfig) (m loaded : Manager) (db : Db)
        → count (source_is v.id) db.sources ≤ 1
        → find (source_is v.id) db.sources ≡ some v
        → tools.seal c ≡ ok v.config_cipher
        → load tools m db ≡ ok loaded
        → find (runtime_is v.id) loaded.sources ≡ some (runtime tools v c)
    unfolding load
    stored-load v c m loaded db once found sealed h =
        load-found v.id (list_storage_sources db) m loaded v c
          (unfold list_storage_sources in
            omega (arith, once, count-sort (source_is v.id) ranks_before db.sources))
          (unfold list_storage_sources in
            find-sort (source_is v.id) ranks_before db.sources once ∙ found)
          (codec c v.config_cipher sealed) h

    -- A new source survives a restart: Load makes the runtime that Add has put in memory.
    pub load-add :
        (now : ℕ) (id : Str) (input : Input) (m m' m0 loaded : Manager) (db db' : Db)
        (v : StorageSource)
        → add tools now id input m db ≡ ok (v, m', db')
        → load tools m0 db' ≡ ok loaded
        → find (runtime_is id) loaded.sources ≡ find (runtime_is id) m'.sources
    load-add now id input m m' m0 loaded db db' v added h =
        let (i, c, cipher, sealed, same, put, made) = add-ok now id input m m' db db' v added in
        let w = new_source tools now id i cipher in
        let (once, found) = create-found w refl db db' made in
        stored-load w c m0 loaded db' once found sealed h
        ∙ sym (
            subst (λ (k : Manager). find (runtime_is id) k.sources ≡ some (runtime tools w c)) put
              (put-same (runtime tools w c) m))

    -- A changed source survives a restart: Load makes the runtime that Update has put in memory, where no
    -- two rows share an id.
    pub load-reconfigure_source :
        (id : Str) (input : Input) (m m' m0 loaded : Manager) (db db' : Db) (v : StorageSource)
        → count (source_is id) db.sources ≤ 1
        → reconfigure_source tools id input m db ≡ ok (v, m', db')
        → load tools m0 db' ≡ ok loaded
        → find (runtime_is id) loaded.sources ≡ find (runtime_is id) m'.sources
    load-reconfigure_source id input m m' m0 loaded db db' v once changed h =
        let (current, i, c, cipher, sealed, put, found, made) =
          reconfigure-ok id input m m' db db' v changed in
        let w = changed_source tools current i cipher in
        let here : current.id ≡ id =
          (str_eq_iff current.id id).0 (find-holds (source_is id) db.sources current found) in
        let (once', row) =
          update-found w current db db'
            (subst (λ j. count (source_is j) db.sources ≤ 1) (sym here) once)
            (subst (λ j. find (source_is j) db.sources ≡ some current) (sym here) found) refl
            made in
        subst (λ j. find (runtime_is j) loaded.sources ≡ find (runtime_is j) m'.sources) here
          (stored-load w c m0 loaded db' once' row sealed h
            ∙ sym (
                subst (λ (k : Manager). find (runtime_is w.id) k.sources ≡ some (runtime tools w c))
                  put (put-same (runtime tools w c) m)))
