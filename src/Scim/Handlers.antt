-- ===== src/Scim/Handlers.antt =====
-- The SCIM handlers of main.py, each behind the bearer token.
use accelerator_pack_auth_se.Prelude.{
  ℕ, String, List, [], ◌∷◌, Bool, Option, Error, http, ◌==◌, map, length,
}
use accelerator_pack_auth_se.Exec.{Exec, found_or, pure, raise, gets, modify, ◌>>=◌, ◌>>◌}
use accelerator_pack_auth_se.Table.{delete_where}
use accelerator_pack_auth_se.Models.{Time}
use accelerator_pack_auth_se.Models.Rows.{User}
use accelerator_pack_auth_se.Models.Federation.{Group}
use accelerator_pack_auth_se.Models.Database.{Database}
use accelerator_pack_auth_se.External.{External}
use accelerator_pack_auth_se.Config.{Settings}
use accelerator_pack_auth_se.Queries.{one_where, order_by}
use accelerator_pack_auth_se.Sessions.{revoke_user_tokens}
use accelerator_pack_auth_se.Accounts.{on_sessions}
use accelerator_pack_auth_se.Tokens.{find_user}
use accelerator_pack_auth_se.Users.{save_user}
use accelerator_pack_auth_se.Roles.{user_not_found}
use accelerator_pack_auth_se.Scim.{
  ScimUserData, ScimGroupData, ScimUser, ScimGroup, user_to_scim, group_to_scim, require_scim_auth,
  scim_create_user, scim_update_user, scim_create_group, scim_update_group,
}

pub record ListResponse (A : Type 0) : Type 0 where
  pub schemas : List String
  pub total_results : ℕ
  pub resources : List A

abbrev pub list_response : {A : Type 0} → List A → ListResponse A
list_response resources = record {
  schemas = "urn:ietf:params:scim:api:messages:2.0:ListResponse" ∷ [];
  total_results = length resources;
  resources = resources;
}

abbrev pub group_not_found : Error
group_not_found = http 404 "Group not found"

abbrev pub find_group : ℕ → Exec Database (Option Group)
find_group group_id = one_where (λ db. db.groups) (λ g. g.id == group_id)

-- `db.delete(group)`, with the rows that refer to the group.
unfoldable pub drop_group : ℕ → Database → Database
drop_group group_id db = record db {
  groups = record (db.groups) { rows = delete_where (λ g. g.id == group_id) db.groups.rows };
  group_memberships = record (db.group_memberships) {
    rows = delete_where (λ m. m.group_id == group_id) db.group_memberships.rows;
  };
  group_roles = record (db.group_roles) {
    rows = delete_where (λ r. r.group_id == group_id) db.group_roles.rows;
  };
}

abbrev pub deactivated : User → User
deactivated user = record user { is_active = Bool.false }

module _ (ext : External) (settings : Settings) where
  unfoldable pub scim_list_users : String → Exec Database (ListResponse ScimUser)
  scim_list_users credentials = do
    token ← require_scim_auth ext settings credentials
    gets (λ db. list_response (map user_to_scim (order_by (λ u. u.id) db.users.rows)))

  unfoldable pub scim_create_user_endpoint : Time → String → ScimUserData → Exec Database ScimUser
  scim_create_user_endpoint now credentials body = do
    token ← require_scim_auth ext settings credentials
    user ← scim_create_user now body
    pure (user_to_scim user)

  unfoldable pub scim_get_user : String → ℕ → Exec Database ScimUser
  scim_get_user credentials user_id = do
    token ← require_scim_auth ext settings credentials
    found ← find_user user_id
    found_or (raise user_not_found) found λ user. pure (user_to_scim user)

  unfoldable pub scim_replace_user : String → ℕ → ScimUserData → Exec Database ScimUser
  scim_replace_user credentials user_id body = do
    token ← require_scim_auth ext settings credentials
    found ← find_user user_id
    found_or (raise user_not_found) found
        λ user. do updated ← scim_update_user user body; pure (user_to_scim updated)

  unfoldable pub scim_delete_user : String → ℕ → Exec Database Unit
  scim_delete_user credentials user_id = do
    token ← require_scim_auth ext settings credentials
    found ← find_user user_id
    found_or (raise user_not_found) found
        λ user. do modify (save_user (deactivated user)); on_sessions (revoke_user_tokens user.id)

  unfoldable pub scim_list_groups : String → Exec Database (ListResponse ScimGroup)
  scim_list_groups credentials = do
    token ← require_scim_auth ext settings credentials
    gets (λ db. list_response (map group_to_scim (order_by (λ g. g.id) db.groups.rows)))

  unfoldable pub scim_create_group_endpoint :
      Time → String → ScimGroupData → Exec Database ScimGroup
  scim_create_group_endpoint now credentials body = do
    token ← require_scim_auth ext settings credentials
    group ← scim_create_group now body
    pure (group_to_scim group)

  unfoldable pub scim_get_group : String → ℕ → Exec Database ScimGroup
  scim_get_group credentials group_id = do
    token ← require_scim_auth ext settings credentials
    found ← find_group group_id
    found_or (raise group_not_found) found λ group. pure (group_to_scim group)

  unfoldable pub scim_replace_group : Time → String → ℕ → ScimGroupData → Exec Database ScimGroup
  scim_replace_group now credentials group_id body = do
    token ← require_scim_auth ext settings credentials
    found ← find_group group_id
    found_or (raise group_not_found) found
        λ group. do updated ← scim_update_group now group body; pure (group_to_scim updated)

  unfoldable pub scim_delete_group : String → ℕ → Exec Database Unit
  scim_delete_group credentials group_id = do
    token ← require_scim_auth ext settings credentials
    found ← find_group group_id
    found_or (raise group_not_found) found λ group. modify (drop_group group.id)

-- The requests that the SCIM routes serve, beside the three static documents.
pub data ScimCall : Type 0 where
  list_users : ScimCall
  create_user : ScimUserData → ScimCall
  get_user : ℕ → ScimCall
  replace_user : ℕ → ScimUserData → ScimCall
  delete_user : ℕ → ScimCall
  list_groups : ScimCall
  create_group : ScimGroupData → ScimCall
  get_group : ℕ → ScimCall
  replace_group : ℕ → ScimGroupData → ScimCall
  delete_group : ℕ → ScimCall
