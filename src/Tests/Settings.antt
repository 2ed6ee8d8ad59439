-- ===== src/Tests/Settings.antt =====
-- A storage source that is added and loaded, its details, the slots of backups, and a configuration.
use rosemary_virsree.Prelude.{
  ℕ, ◌+◌, ◌≤◌, ◌<◌, ◌≡◌, refl, ap, subst, ◌∙◌, some, none, List, [], ◌∷◌, ◌++◌, true, false, Bool,
  if◌then◌else◌, arith,
}
use rosemary_virsree.Prelude.Int.{pos}
use rosemary_virsree.Prelude.Text.{Str, codes, str_eq}
use rosemary_virsree.Prelude.Table.{find}
use rosemary_virsree.Prelude.Sorting.{insert, sort}
use rosemary_virsree.Prelude.Results.{Result, ok, err, bad_config}
use rosemary_virsree.Model.{StorageSource, Db}
use rosemary_virsree.Store.Steps.{empty}
use rosemary_virsree.Store.Sources.{create_storage_source, get_storage_source}
use rosemary_virsree.Service.Backends.{
  Manager, runtime_is, list_storage_sources, validate_primary_capacity,
}
use rosemary_virsree.Service.Storage.Endpoints.{Libraries, drop}
use rosemary_virsree.Service.Storage.{Input, StoredConfig, prepare}
use rosemary_virsree.Service.Storage.Sources.{Tools, add, load, detail}
use rosemary_virsree.Service.Storage.Restart.{load-add}
use rosemary_virsree.Service.Storage.Secrets.{detail-hides_secrets}
use rosemary_virsree.Service.Backup.{slot}
use rosemary_virsree.Service.Backup.Slots.{window, slot_kept}
use rosemary_virsree.Config
use rosemary_virsree.Config.Bounds.{Accepted, AllOrNone, load-Accepted}
use rosemary_virsree.Tests.Codec.{put_all, read_all, read_all-put_all}
use rosemary_virsree.Tests.Sample.{tables}

-- A URL of scheme https, whose host is the rest of the text.
abbrev libraries : Libraries
libraries = record {
  trim_space = λ s. s;
  to_lower = λ s. s;
  parse = λ s. some (record {
    scheme = codes "https";
    host = drop 8 s;
    path = [];
    has_user = false;
    raw_query = [];
    fragment = [];
  });
  to_text = λ u. codes "https://" ++ u.host;
  hostname = λ u. u.host;
  port = λ _. [];
}

abbrev blank : StoredConfig
blank = record {
  endpoint = codes "https://dav.example";
  public_endpoint = [];
  region = [];
  bucket = [];
  access_key = [];
  secret_key = [];
  path_style = false;
  cdn_endpoint = [];
  cdn_mode = [];
  cdn_auth_key = [];
  username = codes "u";
  password = codes "pw";
}

abbrev flag : Bool → Str
flag true = codes "1"
flag false = []

abbrev is_set : Str → Bool
is_set [] = false
is_set (c ∷ s) = true

is_set-flag : (b : Bool) → is_set (flag b) ≡ b
is_set-flag true = refl
is_set-flag false = refl

-- A configuration is sealed as its texts.
abbrev texts : StoredConfig → List Str
texts c =
    c.endpoint
    ∷ c.public_endpoint
    ∷ c.region
    ∷ c.bucket
    ∷ c.access_key
    ∷ c.secret_key
    ∷ flag c.path_style
    ∷ c.cdn_endpoint
    ∷ c.cdn_mode
    ∷ c.cdn_auth_key
    ∷ c.username
    ∷ c.password
    ∷ []

abbrev of_texts : List Str → Result StoredConfig
of_texts (a ∷ b ∷ c ∷ d ∷ e ∷ f ∷ g ∷ h ∷ i ∷ j ∷ k ∷ l ∷ []) = ok (record {
  endpoint = a;
  public_endpoint = b;
  region = c;
  bucket = d;
  access_key = e;
  secret_key = f;
  path_style = is_set g;
  cdn_endpoint = h;
  cdn_mode = i;
  cdn_auth_key = j;
  username = k;
  password = l;
})
of_texts _ = err bad_config

abbrev tools : Tools
tools = record {
  lib = libraries;
  seal = λ c. ok (put_all (texts c));
  unseal = λ s. of_texts (read_all 12 s);
  probe = λ _ _. true;
  ready = λ _ _. true;
  equal_fold = str_eq;
}

codec : (c : StoredConfig) (s : Str) → tools.seal c ≡ ok s → tools.unseal s ≡ ok c
codec c s h =
    let same : put_all (texts c) ≡ s = ground (arith, h) in
    subst (λ t. tools.unseal t ≡ ok c) same
      (ap of_texts (read_all-put_all (texts c))
        ∙ ap (λ b. ok (record c { path_style = b })) (is_set-flag c.path_style))

abbrev input : Input
input = record {
  name = codes "D";
  kind = codes "webdav";
  priority = pos 0;
  capacity_bytes = pos 100;
  capacity_unlimited = false;
  endpoint = codes "dav.example";
  public_endpoint = [];
  region = [];
  bucket = [];
  access_key = [];
  secret_key = [];
  path_style = false;
  cdn_endpoint = [];
  cdn_mode = [];
  cdn_auth_key = [];
  webdav_username = codes "u";
  webdav_password = codes "pw";
  acknowledge_bucket_change = false;
}

abbrev source : StorageSource
source = record {
  id = codes "src_9";
  name = codes "D";
  kind = codes "webdav";
  priority = pos 0;
  capacity_bytes = pos 100;
  capacity_unlimited = false;
  used_bytes = 0;
  reserved_bytes = 0;
  enabled = true;
  direct = false;
  cdn_enabled = false;
  config_cipher = put_all (texts blank);
  created_at = 7;
}

abbrev nothing : Manager
nothing = record { sources = []; legacy = none }

abbrev loaded : Manager
loaded = record { sources = record { meta = source; is_ready = true } ∷ []; legacy = none }

abbrev stored : Db
stored = record empty { sources = source ∷ [] }

unfoldable storage : ℕ
unfolding tables insert sort prepare add load detail get_storage_source create_storage_source
    list_storage_sources validate_primary_capacity put_all read_all
storage = 0

was_added : add tools 7 (codes "src_9") input nothing empty ≡ ok (source, loaded, stored)
unfolding storage
was_added = refl

load-add_example :
    find (runtime_is (codes "src_9")) loaded.sources
    ≡ find (runtime_is (codes "src_9")) loaded.sources
unfolding storage
load-add_example =
    load-add tools codec 7 (codes "src_9") input nothing loaded nothing loaded empty stored source
      was_added refl

-- Another box, whose configuration has another password.
abbrev other_tools : Tools
other_tools = record tools { unseal = λ s. ok (record blank { password = codes "other" }) }

detail-hides_secrets_example :
    detail tools (codes "src_9") stored ≡ detail other_tools (codes "src_9") stored
unfolding storage
detail-hides_secrets_example =
    detail-hides_secrets tools other_tools (codes "src_9") stored source blank
      (record blank { password = codes "other" }) refl refl refl
      (refl, refl, refl, refl, refl, refl, refl, refl, refl, refl, refl, refl)

-- A backup an hour, and the second one seven hours after the first.
slot_kept_example :
    (slot 3600000000000 7 25200000000000 < 7)
    × (window 3600000000000 0 + 7 ≤ window 3600000000000 25200000000000)
slot_kept_example =
    slot_kept 3600000000000 7 0 25200000000000 (omega arith) (omega arith) (unfold slot in refl)

abbrev secret : Str
secret = codes "0123456789abcdef0123456789abcdef"

abbrev getenv : Str → Str
getenv k =
    if str_eq k (codes "RVS_ADMIN_TOKEN")
    then secret
    else (if str_eq k (codes "RVS_MASTER_KEY") then secret else [])

abbrev config_tools : Config.Tools
config_tools = record {
  trim_space = λ s. s;
  to_lower = λ s. s;
  parse_bool = λ _. none;
  absolute = λ _. true;
}

abbrev configured : Config.Config
configured = Config.finished config_tools (Config.read config_tools getenv)

was_loaded : Config.load config_tools getenv ≡ ok configured
unfolding tables Config.load
was_loaded = refl

load-Accepted_example : Accepted configured × AllOrNone config_tools configured
load-Accepted_example = load-Accepted config_tools getenv configured was_loaded
