-- ===== src/Service/Storage.antt =====
-- internal/service/storage.go: storage sources as an administrator enters, changes and reads them. The
-- libraries for URLs, text, JSON and sealing, and the probe of a backend, are parameters.
pub mod Endpoints
pub mod Sources
pub mod Prepared
pub mod Secrets
pub mod Runtimes
pub mod Rows
pub mod Restart
use rosemary_virsree.Prelude.{
  ℕ, Bool, true, false, not, ◌&&◌, ◌||◌, Option, none, some, List, [], ◌∷◌, ◌++◌, ltb,
  if◌then◌else◌,
}
use rosemary_virsree.Prelude.Int.{ℤ, pos, ltb_ℤ}
use rosemary_virsree.Prelude.Text.{Str, codes, str_eq}
use rosemary_virsree.Prelude.Results.{
  Result, ok, err, ◌>>=◌, ◌>>◌, fail_if, bad_kind, source_name_required, s3_fields_required,
  bad_cdn_mode, cdn_key_required, webdav_fields_required, probe_failed,
}
use rosemary_virsree.Service.Storage.Endpoints.{
  Libraries, normalize_endpoint, normalize_service_endpoint, trim_slashes,
}

pub record Input : Type 0 where
  pub name : Str
  pub kind : Str
  pub priority : ℤ
  pub capacity_bytes : ℤ
  pub capacity_unlimited : Bool
  pub endpoint : Str
  pub public_endpoint : Str
  pub region : Str
  pub bucket : Str
  pub access_key : Str
  pub secret_key : Str
  pub path_style : Bool
  pub cdn_endpoint : Str
  pub cdn_mode : Str
  pub cdn_auth_key : Str
  pub webdav_username : Str
  pub webdav_password : Str
  pub acknowledge_bucket_change : Bool

pub record StoredConfig : Type 0 where
  pub endpoint : Str
  pub public_endpoint : Str
  pub region : Str
  pub bucket : Str
  pub access_key : Str
  pub secret_key : Str
  pub path_style : Bool
  pub cdn_endpoint : Str
  pub cdn_mode : Str
  pub cdn_auth_key : Str
  pub username : Str
  pub password : Str

abbrev pub s3 : Str
s3 = codes "s3"

abbrev pub webdav : Str
webdav = codes "webdav"

abbrev pub sigv4 : Str
sigv4 = codes "s3_sigv4"

abbrev pub bitiful : Str
bitiful = codes "bitiful_token"

abbrev pub is_empty : Str → Bool
is_empty s = str_eq s []

abbrev pub or_old : Str → Str → Str
or_old new old = if is_empty new then old else new

module _ (lib : Libraries) where
  abbrev pub trimmed : Input → Input
  trimmed i = record i {
    name = lib.trim_space i.name;
    kind = lib.to_lower (lib.trim_space i.kind);
    bucket = lib.trim_space i.bucket;
    region = lib.trim_space i.region;
  }

  abbrev pub same_cdn : Input → StoredConfig → Bool
  same_cdn i old =
      is_empty i.cdn_auth_key
      && (str_eq i.cdn_mode old.cdn_mode
          && str_eq (trim_slashes (lib.trim_space i.cdn_endpoint)) (trim_slashes old.cdn_endpoint))

  -- A secret that is left empty is the stored one.
  unfoldable pub with_old_secrets : Option StoredConfig → Input → Input
  with_old_secrets none i = i
  with_old_secrets (some old) i = record i {
    access_key = or_old i.access_key old.access_key;
    secret_key = or_old i.secret_key old.secret_key;
    webdav_username = or_old i.webdav_username old.username;
    webdav_password = or_old i.webdav_password old.password;
    cdn_auth_key = if same_cdn i old then old.cdn_auth_key else i.cdn_auth_key;
  }

  -- The three endpoints in their normal form.
  unfoldable pub with_endpoints : Input → Result Input
  unfolding normalize_endpoint
  with_endpoints i = do
    endpoint ← normalize_endpoint lib i.endpoint (str_eq i.kind s3)
    public ← normalize_endpoint lib i.public_endpoint true
    cdn ← normalize_endpoint lib i.cdn_endpoint true
    ok (record i { endpoint = endpoint; public_endpoint = public; cdn_endpoint = cdn })

  abbrev pub default_mode : Str → Str
  default_mode mode = if is_empty mode then sigv4 else mode

  unfoldable pub with_s3_defaults : Input → Input
  unfolding normalize_service_endpoint
  with_s3_defaults i =
      if str_eq i.kind s3
      then record i {
        endpoint = normalize_service_endpoint lib i.endpoint i.bucket;
        public_endpoint = normalize_service_endpoint lib i.public_endpoint i.bucket;
        cdn_mode =
            if is_empty i.cdn_endpoint
            then []
            else default_mode (lib.to_lower (lib.trim_space i.cdn_mode));
        cdn_auth_key = if is_empty i.cdn_endpoint then [] else i.cdn_auth_key;
      }
      else i

  abbrev pub without_unused_key : Input → Input
  without_unused_key i = record i {
    cdn_auth_key = if str_eq i.cdn_mode bitiful then i.cdn_auth_key else [];
  }

  -- The fields that each kind of source needs.
  unfoldable pub check_fields : Input → Result (Unit {0})
  check_fields i = do
    let is_s3 = str_eq i.kind s3
    let has_cdn = not (is_empty i.cdn_endpoint)
    fail_if (is_empty i.name || (not i.capacity_unlimited && ltb_ℤ i.capacity_bytes (pos 1)))
        source_name_required
    fail_if
        (is_s3
          && (is_empty i.region
              || (is_empty i.bucket || (is_empty i.access_key || is_empty i.secret_key))))
        s3_fields_required
    fail_if
        (is_s3 && (has_cdn && (not (str_eq i.cdn_mode sigv4) && not (str_eq i.cdn_mode bitiful))))
        bad_cdn_mode
    fail_if (is_s3 && (has_cdn && (str_eq i.cdn_mode bitiful && is_empty i.cdn_auth_key)))
        cdn_key_required
    fail_if
        (str_eq i.kind webdav
          && (is_empty i.endpoint || (is_empty i.webdav_username || is_empty i.webdav_password)))
        webdav_fields_required

  abbrev pub stored_config : Input → StoredConfig
  stored_config i = record {
    endpoint = i.endpoint;
    public_endpoint = i.public_endpoint;
    region = i.region;
    bucket = i.bucket;
    access_key = i.access_key;
    secret_key = i.secret_key;
    path_style = i.path_style;
    cdn_endpoint = i.cdn_endpoint;
    cdn_mode = i.cdn_mode;
    cdn_auth_key = i.cdn_auth_key;
    username = i.webdav_username;
    password = i.webdav_password;
  }

  -- backendFor: its error, where it has no backend of this kind.
  abbrev pub known_kind : Str → Result (Unit {0})
  known_kind kind = fail_if (not (str_eq kind s3 || str_eq kind webdav)) bad_kind

  -- Everything that prepare does before it probes the backend.
  unfoldable pub normalized : Input → Option StoredConfig → Result Input
  unfolding with_old_secrets with_endpoints with_s3_defaults check_fields
  normalized input existing = do
    i ← with_endpoints (with_old_secrets existing (trimmed input))
    let filled = with_s3_defaults i
    check_fields filled
    known_kind filled.kind
    ok (without_unused_key filled)

  -- The input in its normal form and the configuration to store, once the probe of its backend has
  -- succeeded.
  unfoldable pub prepare :
      (Str → StoredConfig → Bool) → Input → Option StoredConfig → Result (Input × StoredConfig)
  unfolding normalized
  prepare probe input existing = do
    i ← normalized input existing
    fail_if (not (probe i.kind (stored_config i))) probe_failed
    ok (i, stored_config i)
