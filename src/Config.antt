-- ===== src/Config.antt =====
-- internal/config/config.go. The environment is a function from names to texts, where a name that is
-- not set has the empty text; `trim_space`, `to_lower`, `parse_bool` and `absolute` (the text is a URL of
-- scheme http or https with a host) stand for packages strings, strconv and net/url.
pub mod Bounds
use rosemary_virsree.Prelude.{
  ℕ, ◌*◌, ◌^◌, ◌%◌, Bool, true, false, not, ◌&&◌, ◌||◌, Option, none, some, List, [], ◌∷◌, ◌++◌,
  ltb, if◌then◌else◌,
}
use rosemary_virsree.Prelude.Int.{ℤ, pos, ltb_ℤ, leb_ℤ}
use rosemary_virsree.Prelude.Text.{Str, codes, str_eq, has_prefix}
use rosemary_virsree.Prelude.Table.{any}
use rosemary_virsree.Prelude.Split.{split}
use rosemary_virsree.Prelude.Decimal.{parse_int}
use rosemary_virsree.Prelude.Results.{
  Result, ok, err, ◌>>=◌, ◌>>◌, fail_if, bad_admin_token, bad_master_key, bad_limits,
  bad_session_ttl, bad_backup, oidc_incomplete, bad_url,
}
use rosemary_virsree.Service.Uploads.{length}
use rosemary_virsree.Service.Storage.Endpoints.{trim_slashes}

pub record Backend : Type 0 where
  pub endpoint : Str
  pub public_endpoint : Str
  pub download_endpoint : Str
  pub region : Str
  pub bucket : Str
  pub access_key : Str
  pub secret_key : Str
  pub path_style : Bool

pub record Config : Type 0 where
  pub listen : Str
  pub public_url : Str
  pub database_path : Str
  pub web_dir : Str
  pub docs_dir : Str
  pub download_dir : Str
  pub project_url : Str
  pub release_url : Str
  pub admin_token : Str
  pub master_key : Str
  pub oidc_issuer : Str
  pub oidc_client_id : Str
  pub oidc_client_secret : Str
  pub oidc_redirect_url : Str
  pub admin_emails : List Str
  pub session_ttl : ℤ
  pub total_quota : ℤ
  pub max_objects_per_bucket : ℤ
  pub max_pending_uploads : ℤ
  pub backup_interval : ℤ
  pub backup_retention : ℤ
  pub backend : Backend

-- The libraries that Load calls.
pub record Tools : Type 0 where
  pub trim_space : Str → Str
  pub to_lower : Str → Str
  pub parse_bool : Str → Option Bool
  pub absolute : Str → Bool

abbrev pub is_unset : Str → Bool
is_unset v = str_eq v []

abbrev pub env : (Str → Str) → Str → Str → Str
env getenv k d = if is_unset (getenv k) then d else getenv k

abbrev pub env_int : (Str → Str) → Str → ℤ → ℤ
env_int getenv k d =
    let v = getenv k in let n = parse_int v in if is_unset v then d else (if n.1 then n.0 else d)

abbrev pub parsed_bool : Bool → Option Bool → Bool
parsed_bool d none = d
parsed_bool d (some b) = b

module _ (tools : Tools) where
  abbrev pub env_bool : (Str → Str) → Str → Bool → Bool
  env_bool getenv k d =
      let v = getenv k in if is_unset v then d else parsed_bool d (tools.parse_bool v)

  abbrev pub with_item : Str → List Str → List Str
  with_item item rest = if str_eq item [] then rest else item ∷ rest

  abbrev pub items : List Str → List Str
  items [] = []
  items (w ∷ ws) = with_item (tools.to_lower (tools.trim_space w)) (items ws)

  unfoldable pub split_csv : Str → List Str
  unfolding split
  split_csv v = items (split 44 v)

  -- The first reading of the environment.
  unfoldable pub read : (Str → Str) → Config
  unfolding split_csv parse_int trim_slashes
  read getenv = record {
    listen = env getenv (codes "RVS_LISTEN") (codes "127.0.0.1:8080");
    public_url = env getenv (codes "RVS_PUBLIC_URL") (codes "http://127.0.0.1:8080");
    database_path = env getenv (codes "RVS_DATABASE") (codes "rosemary.db");
    web_dir = env getenv (codes "RVS_WEB_DIR") (codes "web/dist");
    docs_dir = env getenv (codes "RVS_DOCS_DIR") (codes "docs");
    download_dir = env getenv (codes "RVS_DOWNLOAD_DIR") (codes "downloads");
    project_url =
        env getenv (codes "RVS_PROJECT_URL") (codes "https://github.com/Foodie05/rosemary-virsree");
    release_url =
        env getenv (codes "RVS_RELEASE_URL")
          (codes "https://github.com/Foodie05/rosemary-virsree/releases");
    admin_token = getenv (codes "RVS_ADMIN_TOKEN");
    master_key = getenv (codes "RVS_MASTER_KEY");
    oidc_issuer =
        trim_slashes (env getenv (codes "RVS_OIDC_ISSUER") (codes "https://apiauth.cruty.cn"));
    oidc_client_id = getenv (codes "RVS_OIDC_CLIENT_ID");
    oidc_client_secret = getenv (codes "RVS_OIDC_CLIENT_SECRET");
    oidc_redirect_url = env getenv (codes "RVS_OIDC_REDIRECT_URL") [];
    admin_emails = split_csv (getenv (codes "RVS_ADMIN_EMAILS"));
    session_ttl = env_int getenv (codes "RVS_SESSION_TTL_SECONDS") (pos 43200);
    total_quota = env_int getenv (codes "RVS_TOTAL_QUOTA") (pos (100 * 2 ^ 30));
    max_objects_per_bucket = env_int getenv (codes "RVS_MAX_OBJECTS_PER_BUCKET") (pos 1000000);
    max_pending_uploads = env_int getenv (codes "RVS_MAX_PENDING_UPLOADS_PER_BUCKET") (pos 1000);
    backup_interval = env_int getenv (codes "RVS_BACKUP_INTERVAL_SECONDS") (pos 21600);
    backup_retention = env_int getenv (codes "RVS_BACKUP_RETENTION") (pos 7);
    backend = record {
      endpoint = getenv (codes "RVS_S3_ENDPOINT");
      public_endpoint = getenv (codes "RVS_S3_PUBLIC_ENDPOINT");
      download_endpoint = getenv (codes "RVS_S3_DOWNLOAD_ENDPOINT");
      region = env getenv (codes "RVS_S3_REGION") (codes "us-east-1");
      bucket = getenv (codes "RVS_S3_BUCKET");
      access_key = getenv (codes "RVS_S3_ACCESS_KEY");
      secret_key = getenv (codes "RVS_S3_SECRET_KEY");
      path_style = env_bool getenv (codes "RVS_S3_PATH_STYLE") Bool.true;
    };
  }

  abbrev pub is_weak : ℕ → Str → Bool
  is_weak n secret = ltb (length secret) n || has_prefix secret (codes "change-this")

  abbrev pub has_emails : Config → Bool
  has_emails c = any (λ _. Bool.true) c.admin_emails

  -- Some of the settings of the sign-in are there.
  abbrev pub configured_oidc : Config → Bool
  configured_oidc c =
      not (is_unset c.oidc_client_id) || (not (is_unset c.oidc_client_secret) || has_emails c)

  unfoldable pub oidc_ready : Config → Bool
  oidc_ready c =
      not (is_unset c.oidc_client_id) && (not (is_unset c.oidc_client_secret) && has_emails c)

  unfoldable pub backend_ready : Config → Bool
  backend_ready c =
      not (is_unset c.backend.bucket)
      && (not (is_unset c.backend.access_key) && not (is_unset c.backend.secret_key))

  -- The tests of the secrets, the limits and the intervals.
  unfoldable pub check_values : Config → Result (Unit {0})
  check_values c = do
    fail_if (is_weak 24 c.admin_token) bad_admin_token
    fail_if (is_weak 32 c.master_key) bad_master_key
    fail_if
        (ltb_ℤ c.total_quota (pos 1)
          || (ltb_ℤ c.max_objects_per_bucket (pos 1) || ltb_ℤ c.max_pending_uploads (pos 1)))
        bad_limits
    fail_if (ltb_ℤ c.session_ttl (pos 300)) bad_session_ttl
    fail_if
        (ltb_ℤ c.backup_interval (pos 60)
          || (ltb_ℤ c.backup_retention (pos 2) || ltb_ℤ (pos 30) c.backup_retention))
        bad_backup

  abbrev pub with_redirect : Config → Config
  with_redirect c =
      if configured_oidc c && is_unset c.oidc_redirect_url
      then record c { oidc_redirect_url = c.public_url ++ codes "/auth/callback" }
      else c

  abbrev pub good_urls : Config → Bool
  good_urls c =
      tools.absolute c.public_url
      && (tools.absolute c.project_url
          && (tools.absolute c.release_url
              && (not (configured_oidc c)
                  || (tools.absolute c.oidc_issuer && tools.absolute c.oidc_redirect_url))))

  abbrev pub or_else : Str → Str → Str
  or_else v d = if is_unset v then d else v

  -- The last changes: URLs without a final slash, and the endpoints that fall back on another.
  abbrev pub finished : Config → Config
  finished c =
      let public = or_else c.backend.public_endpoint c.backend.endpoint in
      record c {
        project_url = trim_slashes c.project_url;
        release_url = trim_slashes c.release_url;
        backend = record c.backend {
          public_endpoint = public;
          download_endpoint = or_else c.backend.download_endpoint public;
        };
      }

  unfoldable pub load : (Str → Str) → Result Config
  unfolding read check_values oidc_ready trim_slashes
  load getenv = do
    let first = read getenv
    check_values first
    let c = record first { public_url = trim_slashes first.public_url }
    fail_if (configured_oidc c && not (oidc_ready c)) oidc_incomplete
    let d = with_redirect c
    fail_if (not (good_urls d)) bad_url
    ok (finished d)
