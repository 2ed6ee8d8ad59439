-- ===== src/Prelude/Results.antt =====
-- Fallible Go functions: the value, or the error that the function returns.
use mathlib.Core.Path.{◌≡◌, refl}
use mathlib.Core.Logic.{◌⊎◌, inl, inr}
use mathlib.Core.Bool.{Bool, true, false}
use mathlib.Core.Option.{Option, none, some}

-- One constructor for each error value of the modelled code. `out_of_fuel` is no value of the code: it
-- ends a loop that has run for as many rounds as it was given. `not_found` is sql.ErrNoRows, and
-- `constraint` is the driver's error when a statement breaks a UNIQUE, PRIMARY KEY or FOREIGN KEY.
pub data Error : Type 0 where
  out_of_fuel : Error
  not_found constraint bucket_deleting : Error
  unlimited_not_allowed quota_not_positive total_quota quota_below_usage : Error
  pending_limit object_limit bucket_quota source_capacity capacity_below_usage : Error
  token_unusable confirmation_invalid confirmation_wait confirmation_expired grants_alive : Error
  link_expired sum_overflow : Error
  remote_failed source_unavailable no_capacity size_required bad_key expiry_required : Error
  size_mismatch promoted_mismatch not_ready not_public negative_expiry : Error
  invalid_credentials revoked_credential permission_denied unknown_permission : Error
  lifetime_too_short quota_required quota_exceeds_allowance invalid_request bucket_exists : Error
  bad_slug bad_visibility name_required confirmation_mismatch source_missing : Error
  capability_unavailable primary_limited bad_page_limit bad_page_query : Error
  backend_not_ready bad_purge_prefix outside_prefix empty_truncated_page : Error
  bad_credential bad_expires unsigned_request incomplete_signature bad_amz_date : Error
  request_expired request_skewed bad_scope signature_mismatch invalid_access_key : Error
  bucket_not_granted : Error
  challenge_expired login_denied login_parameters idp_unreachable exchange_failed : Error
  id_token_missing bad_id_token bad_metadata bad_key_set no_signing_key bad_claims : Error
  unavailable claims_mismatch token_time bad_profile email_unverified not_admin : Error
  session_failed endpoint_required bad_endpoint bad_kind kind_fixed bucket_change : Error
  source_name_required s3_fields_required bad_cdn_mode cdn_key_required : Error
  webdav_fields_required probe_failed bad_config bad_admin_token bad_master_key : Error
  bad_limits bad_session_ttl bad_backup oidc_incomplete bad_url no_presigning : Error
  ttl_too_short ttl_too_long invalid_secret snapshot_failed compression_failed encryption_failed :
      Error
  capacity_insufficient backup_write_failed marker_write_failed : Error

pub data Result {ℓ} (A : Type ℓ) : Type ℓ where
  err : Error → Result A
  ok : A → Result A

-- `if b { return err }`
abbrev pub fail_if : Bool → Error → Result (Unit {0})
fail_if true e = err e
fail_if false e = ok tt

-- QueryRow(…).Scan(…)
abbrev pub scan {ℓ} : {A : Type ℓ} → Option A → Error → Result A
scan none e = err e
scan (some a) e = ok a

-- `if err != nil { return err }`
infixl 5 ◌>>=◌
abbrev pub ◌>>=◌ {ℓ κ} : {A : Type ℓ} {B : Type κ} → Result A → (A → Result B) → Result B
err e >>= next = err e
ok a >>= next = next a

infixl 5 ◌>>◌
abbrev pub ◌>>◌ {ℓ κ} : {A : Type ℓ} {B : Type κ} → Result A → Result B → Result B
first >> next = first >>= λ _. next

pub Result-cases {ℓ} :
    {A : Type ℓ} (r : Result A) → ((x : A) × (r ≡ ok x)) ⊎ ((e : Error) × (r ≡ err e))
Result-cases (err e) = inr (e, refl)
Result-cases (ok x) = inl (x, refl)

-- A chain that returns has returned at its first step.
pub ok-bind {ℓ κ} :
    {A : Type ℓ} {B : Type κ} {y : B} (next : A → Result B) (r : Result A)
    → r >>= next ≡ ok y
    → (x : A) × (next x ≡ ok y) × (r ≡ ok x)
ok-bind next (err e) returned = cc
ok-bind next (ok x) returned = (x, returned, refl)
