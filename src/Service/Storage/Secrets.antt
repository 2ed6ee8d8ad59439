-- ===== src/Service/Storage/Secrets.antt =====
-- What Detail shows of a source's secrets.
use rosemary_virsree.Prelude.{◌≡◌, ap}
use rosemary_virsree.Prelude.Text.{Str}
use rosemary_virsree.Prelude.Results.{ok}
use rosemary_virsree.Model.{StorageSource, Db}
use rosemary_virsree.Store.Sources.{get_storage_source}
use rosemary_virsree.Service.Storage.{StoredConfig, is_empty}
use rosemary_virsree.Service.Storage.Sources.{Tools, detail, detail_of}

-- The configurations differ at most in the values of secrets that both have.
abbrev pub SameButSecrets : StoredConfig → StoredConfig → Type 0
SameButSecrets c d =
    (c.endpoint ≡ d.endpoint)
    × (c.public_endpoint ≡ d.public_endpoint)
    × (c.region ≡ d.region)
    × (c.bucket ≡ d.bucket)
    × (c.cdn_endpoint ≡ d.cdn_endpoint)
    × (c.cdn_mode ≡ d.cdn_mode)
    × (c.path_style ≡ d.path_style)
    × (is_empty c.access_key ≡ is_empty d.access_key)
    × (is_empty c.secret_key ≡ is_empty d.secret_key)
    × (is_empty c.username ≡ is_empty d.username)
    × (is_empty c.password ≡ is_empty d.password)
    × (is_empty c.cdn_auth_key ≡ is_empty d.cdn_auth_key)

-- Detail answers the same for two boxes whose configurations of the source differ at most in the
-- values of secrets that both have.
pub detail-hides_secrets :
    (tools tools' : Tools) (id : Str) (db : Db) (v : StorageSource) (c d : StoredConfig)
    → get_storage_source id db ≡ ok v
    → tools.unseal v.config_cipher ≡ ok c
    → tools'.unseal v.config_cipher ≡ ok d
    → SameButSecrets c d
    → detail tools id db ≡ detail tools' id db
unfolding detail
detail-hides_secrets tools tools' id db v c d found opened opened' same =
    let (a, b, e, f, g, h, i, j, k, l, m, n) = same in
    let shown : detail_of tools v c ≡ detail_of tools' v d =
      cc (a, b, e, f, g, h, i, j, k, l, m, n) in
    rw (found, opened, opened') (ap ok shown)
