-- ===== src/Service/Storage/Sources.antt =====
-- internal/service/storage.go: Load, Add, Detail and Update. `seal` and `unseal` are the JSON text of a
-- configuration under the secret box; a `probe` tells whether a backend answers, and `ready` is its
-- Ready().
use rosemary_virsree.Prelude.{ℕ, Bool, not, ◌&&◌, none, some, List, [], ◌∷◌, if◌then◌else◌}
use rosemary_virsree.Prelude.Text.{Str, str_eq}
use rosemary_virsree.Prelude.Table.{any, update}
use rosemary_virsree.Prelude.Results.{
  Result, ok, err, ◌>>=◌, ◌>>◌, fail_if, kind_fixed, bucket_change,
}
use rosemary_virsree.Model.{StorageSource, Db}
use rosemary_virsree.Store.Sources.{
  create_storage_source, get_storage_source, update_storage_source,
}
use rosemary_virsree.Service.Backends.{
  Runtime, Manager, runtime_is, list_storage_sources, validate_primary_capacity,
}
use rosemary_virsree.Service.Storage.Endpoints.{Libraries}
use rosemary_virsree.Service.Storage.{Input, StoredConfig, s3, is_empty, known_kind, prepare}

-- m.sources[id] = …
unfoldable pub put_runtime : Runtime → Manager → Manager
put_runtime r m = record m {
  sources =
      if any (runtime_is r.meta.id) m.sources
      then update (runtime_is r.meta.id) (λ _. r) m.sources
      else r ∷ m.sources;
}

-- The libraries, the box and the backends that the manager calls.
pub record Tools : Type 0 where
  pub lib : Libraries
  pub seal : StoredConfig → Result Str
  pub unseal : Str → Result StoredConfig
  pub probe : Str → StoredConfig → Bool
  pub ready : Str → StoredConfig → Bool
  pub equal_fold : Str → Str → Bool

pub record Detail : Type 0 where
  pub source : StorageSource
  pub endpoint : Str
  pub public_endpoint : Str
  pub region : Str
  pub bucket : Str
  pub cdn_endpoint : Str
  pub cdn_mode : Str
  pub path_style : Bool
  pub access_key_configured : Bool
  pub secret_key_configured : Bool
  pub webdav_username_configured : Bool
  pub webdav_password_configured : Bool
  pub cdn_auth_key_configured : Bool

module _ (tools : Tools) where
  abbrev pub runtime : StorageSource → StoredConfig → Runtime
  runtime v c = record { meta = v; is_ready = tools.ready v.kind c }

  -- The loop of Load over the rows.
  unfoldable pub load_sources : List StorageSource → Manager → Result Manager
  unfolding put_runtime
  load_sources [] m = ok m
  load_sources (v ∷ vs) m = do
    c ← tools.unseal v.config_cipher
    known_kind tools.lib v.kind
    load_sources vs (put_runtime (runtime v c) m)

  unfoldable pub load : Manager → Db → Result Manager
  unfolding load_sources list_storage_sources
  load m db = load_sources (list_storage_sources db) m

  -- The end of Add and Update: the row is written, then the source is in memory.
  abbrev pub kept :
      StorageSource → StoredConfig → Manager → Result Db → Result (StorageSource × Manager × Db)
  kept v c m (err e) = err e
  kept v c m (ok db) = ok (v, put_runtime (runtime v c) m, db)

  abbrev pub new_source : ℕ → Str → Input → Str → StorageSource
  new_source now id i cipher = record {
    id = id;
    name = i.name;
    kind = i.kind;
    priority = i.priority;
    capacity_bytes = i.capacity_bytes;
    capacity_unlimited = i.capacity_unlimited;
    used_bytes = 0;
    reserved_bytes = 0;
    enabled = Bool.true;
    direct = str_eq i.kind s3;
    cdn_enabled = not (is_empty i.cdn_endpoint);
    config_cipher = cipher;
    created_at = now;
  }

  -- `id` is random.
  unfoldable pub add : ℕ → Str → Input → Manager → Db → Result (StorageSource × Manager × Db)
  unfolding put_runtime
  add now id input m db = do
    p ← prepare tools.lib tools.probe input none
    cipher ← tools.seal p.1
    let v = new_source now id p.0 cipher
    validate_primary_capacity v db
    kept v p.1 m (create_storage_source v db)

  abbrev pub detail_of : StorageSource → StoredConfig → Detail
  detail_of v c = record {
    source = v;
    endpoint = c.endpoint;
    public_endpoint = c.public_endpoint;
    region = c.region;
    bucket = c.bucket;
    cdn_endpoint = c.cdn_endpoint;
    cdn_mode = c.cdn_mode;
    path_style = c.path_style;
    access_key_configured = not (is_empty c.access_key);
    secret_key_configured = not (is_empty c.secret_key);
    webdav_username_configured = not (is_empty c.username);
    webdav_password_configured = not (is_empty c.password);
    cdn_auth_key_configured = not (is_empty c.cdn_auth_key);
  }

  unfoldable pub detail : Str → Db → Result Detail
  detail id db = do
    v ← get_storage_source id db
    c ← tools.unseal v.config_cipher
    ok (detail_of v c)

  abbrev pub changes_bucket : StorageSource → Input → StoredConfig → Bool
  changes_bucket current input old =
      str_eq current.kind s3 && not (str_eq (tools.lib.trim_space input.bucket) old.bucket)

  abbrev pub changed_source : StorageSource → Input → Str → StorageSource
  changed_source current i cipher = record current {
    name = i.name;
    kind = i.kind;
    priority = i.priority;
    capacity_bytes = i.capacity_bytes;
    capacity_unlimited = i.capacity_unlimited;
    enabled = Bool.true;
    direct = str_eq i.kind s3;
    cdn_enabled = not (is_empty i.cdn_endpoint);
    config_cipher = cipher;
  }

  -- The changed source. Its other result, whether the bucket changes, is `changes_bucket`.
  unfoldable pub reconfigure_source :
      Str → Input → Manager → Db → Result (StorageSource × Manager × Db)
  unfolding put_runtime
  reconfigure_source id input m db = do
    current ← get_storage_source id db
    fail_if
        (not (is_empty input.kind)
          && not (tools.equal_fold (tools.lib.trim_space input.kind) current.kind))
        kind_fixed
    old ← tools.unseal current.config_cipher
    fail_if (changes_bucket current input old && not input.acknowledge_bucket_change) bucket_change
    p ← prepare tools.lib tools.probe (record input { kind = current.kind }) (some old)
    cipher ← tools.seal p.1
    let updated = changed_source current p.0 cipher
    validate_primary_capacity updated db
    kept updated p.1 m (update_storage_source updated db)
