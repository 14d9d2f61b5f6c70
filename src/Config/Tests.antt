-- ===== src/Config/Tests.antt =====
-- A witness for the theorem on settings.
use accelerator_pack_auth_se.Prelude.{true, false}
use accelerator_pack_auth_se.Config.{Settings, default_settings}

abbrev given : Settings
given = record default_settings {
  profile = "minimal";
  issuer_url = "https://auth";
  scim_enabled = true;
}

abbrev built : Settings
built = record given { audit_enabled = false }
