-- ===== src/Config.antt =====
-- config.py: the settings that the modelled code reads, the profile presets, and the validation of a
-- new settings object.
pub mod Profiles
mod Tests
use accelerator_pack_auth_se.Prelude.{
  ℕ, String, List, [], ◌∷◌, Bool, true, false, not, ◌&&◌, ◌||◌, Option, none, some, Result, ok, err,
  value_error, str_eq, contains, if◌then◌else◌,
}

pub record Settings : Type 0 where
  pub issuer_url : String
  pub access_token_expire_minutes : ℕ
  pub refresh_token_expire_days : ℕ
  pub bcrypt_rounds : ℕ
  pub client_credentials_enabled : Bool
  pub strict_scopes : Bool
  pub client_token_expire_minutes : ℕ
  pub client_max_per_owner : ℕ
  pub account_lockout_threshold : ℕ
  pub account_lockout_duration_minutes : ℕ
  pub max_concurrent_sessions : ℕ
  pub local_auth_enabled : Bool
  pub oidc_enabled : Bool
  pub saml_enabled : Bool
  pub scim_enabled : Bool
  pub audit_enabled : Bool
  pub scim_token : String
  pub audit_retention_days : ℕ
  pub sso_redirect_base_url : String
  pub profile : String
  pub auto_admin_first_user : Bool
  pub pack : String

abbrev pub default_settings : Settings
default_settings = record {
  issuer_url = "";
  access_token_expire_minutes = 15;
  refresh_token_expire_days = 7;
  bcrypt_rounds = 12;
  client_credentials_enabled = true;
  strict_scopes = false;
  client_token_expire_minutes = 60;
  client_max_per_owner = 20;
  account_lockout_threshold = 5;
  account_lockout_duration_minutes = 30;
  max_concurrent_sessions = 5;
  local_auth_enabled = true;
  oidc_enabled = false;
  saml_enabled = false;
  scim_enabled = false;
  audit_enabled = true;
  scim_token = "";
  audit_retention_days = 90;
  sso_redirect_base_url = "";
  profile = "custom";
  auto_admin_first_user = true;
  pack = "base";
}

-- The values of one preset; the keys are the names of the fields.
pub record Preset : Type 0 where
  pub local_auth_enabled : Bool
  pub oidc_enabled : Bool
  pub saml_enabled : Bool
  pub scim_enabled : Bool
  pub audit_enabled : Bool

abbrev minimal : Preset
minimal = record {
  local_auth_enabled = true;
  oidc_enabled = false;
  saml_enabled = false;
  scim_enabled = false;
  audit_enabled = false;
}

abbrev standard : Preset
standard = record {
  local_auth_enabled = true;
  oidc_enabled = true;
  saml_enabled = false;
  scim_enabled = false;
  audit_enabled = true;
}

abbrev enterprise : Preset
enterprise = record {
  local_auth_enabled = true;
  oidc_enabled = true;
  saml_enabled = true;
  scim_enabled = true;
  audit_enabled = true;
}

-- `PROFILE_PRESETS`
pub profile_presets : String → Option Preset
profile_presets profile =
    if str_eq profile "minimal"
    then some minimal
    else if str_eq profile "standard"
    then some standard
    else if str_eq profile "enterprise"
    then some enterprise
    else none

-- A value of the preset is used unless the field was set explicitly.
apply_preset : List String → Option Preset → Settings → Settings
apply_preset fields_set none s = s
apply_preset fields_set (some p) s = record s {
  local_auth_enabled = keep "local_auth_enabled" s.local_auth_enabled p.local_auth_enabled;
  oidc_enabled = keep "oidc_enabled" s.oidc_enabled p.oidc_enabled;
  saml_enabled = keep "saml_enabled" s.saml_enabled p.saml_enabled;
  scim_enabled = keep "scim_enabled" s.scim_enabled p.scim_enabled;
  audit_enabled = keep "audit_enabled" s.audit_enabled p.audit_enabled;
}
  where
    keep : String → Bool → Bool → Bool
    keep key old preset = if contains fields_set key then old else preset

pub model_post_init : List String → Settings → Result Settings
model_post_init fields_set s =
    let s' = apply_preset fields_set (profile_presets s.profile) s in
    if str_eq s'.issuer_url "" && (s'.local_auth_enabled || s'.oidc_enabled)
    then err (value_error "AUTH_ISSUER_URL must be set when token issuance is enabled.")
    else ok s'
