-- ===== src/Scim/Tests.antt =====
-- Witnesses for the theorems on SCIM.
use accelerator_pack_auth_se.Prelude.{[], ◌∷◌, ◌≡◌, refl, some, ok, err, true, false, select, any}
use accelerator_pack_auth_se.Samples.{ext, settings, now, db}
use accelerator_pack_auth_se.Config.{Settings}
use accelerator_pack_auth_se.Clients.{unset}
use accelerator_pack_auth_se.Tokens.{find_user}
use accelerator_pack_auth_se.Sessions.{is_open, revoke_user_tokens}
use accelerator_pack_auth_se.Users.{save_user}
use accelerator_pack_auth_se.Scim.{ScimGroupData, require_scim_auth, scim_create_group}
use accelerator_pack_auth_se.Scim.Handlers.{delete_user, scim_delete_user}
use accelerator_pack_auth_se.Scim.Refused.{refusal, serve, serve-refused}
use accelerator_pack_auth_se.Scim.Deprovisioned.{IsLetIn, scim_delete_user-gone}
use accelerator_pack_auth_se.Scim.Partial.{Created, scim_create_group-partial}

abbrev scim_settings : Settings
scim_settings = record settings { scim_enabled = true; scim_token = "secret" }

serve-refused_example :
    serve ext scim_settings "guess" now (delete_user 1) db ≡ (err (refusal scim_settings), db)
serve-refused_example = serve-refused ext scim_settings "guess" now (delete_user 1) db refl

deleted : (scim_delete_user ext scim_settings "secret" 1 db).0 ≡ ok tt
unfolding scim_delete_user require_scim_auth find_user select revoke_user_tokens save_user
deleted = refl

scim_delete_user-gone_example :
    (any (is_open 1) (scim_delete_user ext scim_settings "secret" 1 db).1.refresh_tokens.rows
      ≡ false)
    × ¬ (IsLetIn ext scim_settings "secret" 1 (scim_delete_user ext scim_settings "secret" 1 db).1)
scim_delete_user-gone_example = scim_delete_user-gone ext scim_settings "secret" 1 db tt deleted

abbrev team : ScimGroupData
team = record {
  display_name = some "team";
  external_id = unset;
  members = some (some "1" ∷ some "Bob" ∷ []);
}

scim_create_group-partial_example : Created now team db (scim_create_group now team db)
scim_create_group-partial_example = scim_create_group-partial now team db
