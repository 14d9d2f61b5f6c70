-- ===== src/Collections.antt =====
-- The handlers of main.py for the permissions of users on collections.
pub mod Levels
mod Tests
use accelerator_pack_auth_se.Prelude.{
  ℕ, String, List, [], Bool, not, ◌&&◌, Option, some, ok, err, http, ◌==◌, str_eq, any, select, map,
  flat_map, if◌then◌else◌,
}
use accelerator_pack_auth_se.Exec.{Exec, found_or, pure, raise, gets, guard, zoom, ◌>>=◌, ◌>>◌}
use accelerator_pack_auth_se.Table.{Table, insert_row, delete_where}
use accelerator_pack_auth_se.Models.{Time, PermissionLevel, level_value, is_admin}
use accelerator_pack_auth_se.Models.Rows.{User, CollectionPermission}
use accelerator_pack_auth_se.Models.Database.{Database}
use accelerator_pack_auth_se.External.{External}
use accelerator_pack_auth_se.Config.{Settings}
use accelerator_pack_auth_se.Tokens.{get_current_user, require_admin, find_user}
use accelerator_pack_auth_se.Admin.{audit_as}
use accelerator_pack_auth_se.Roles.{user_not_found}
use accelerator_pack_auth_se.Assignments.{user_target}
use Prim.Native.String as Text

pub record CollectionPermissionRequest : Type 0 where
  pub user_id : ℕ
  pub permission_level : PermissionLevel

pub record CollectionPermissionResponse : Type 0 where
  pub id : ℕ
  pub user_id : ℕ
  pub collection_id : String
  pub permission_level : PermissionLevel
  pub user_email : Option String

pub record MyCollectionAccess : Type 0 where
  pub collection_id : String
  pub permission_level : PermissionLevel

abbrev pub Collections : Type 0
Collections = Table CollectionPermission

abbrev pub on_collections : {A : Type 0} → Exec Collections A → Exec Database A
on_collections =
    zoom (λ d. d.collection_permissions) (λ t d. record d { collection_permissions = t })

-- The permission of one user on one collection.
unfoldable pub is_for : ℕ → String → CollectionPermission → Bool
is_for user_id collection_id p = p.user_id == user_id && str_eq p.collection_id collection_id

abbrev pub new_permission : String → CollectionPermissionRequest → Time → ℕ → CollectionPermission
new_permission collection_id req now id = record {
  id = id;
  user_id = req.user_id;
  collection_id = collection_id;
  permission_level = req.permission_level;
  created_at = now;
}

-- The old permission is deleted and the new one added in one transaction.
unfoldable pub replace_permission :
    String → CollectionPermissionRequest → Time → Exec Collections CollectionPermission
replace_permission collection_id req now t =
    let kept = record t { rows = delete_where (is_for req.user_id collection_id) t.rows } in
    (
      ok (new_permission collection_id req now t.next_id),
      insert_row (new_permission collection_id req now) kept,
    )

unfoldable pub drop_permission : ℕ → String → Exec Collections Unit
drop_permission user_id collection_id t =
    if any (is_for user_id collection_id) t.rows
    then (ok tt, record t { rows = delete_where (is_for user_id collection_id) t.rows })
    else (err (http 404 "Permission not found"), t)

abbrev pub permission_response : CollectionPermission → String → CollectionPermissionResponse
permission_response p email = record {
  id = p.id;
  user_id = p.user_id;
  collection_id = p.collection_id;
  permission_level = p.permission_level;
  user_email = some email;
}

module _ (ext : External) (settings : Settings) where
  unfoldable pub assign_collection_permission :
      Time
      → String
      → String
      → CollectionPermissionRequest
      → Exec Database CollectionPermissionResponse
  assign_collection_permission now token collection_id req = do
    admin ← require_admin ext settings now token
    found ← find_user req.user_id
    found_or (raise user_not_found) found λ user. do
      perm ← on_collections (replace_permission collection_id req now)
      audit_as admin "assign_permission"
          (user_target req.user_id (
            Text.◌++◌ " collection="
              (Text.◌++◌ collection_id (Text.◌++◌ " level=" (level_value req.permission_level)))))
          now
      pure (permission_response perm user.email)

  unfoldable pub revoke_collection_permission : Time → String → String → ℕ → Exec Database Unit
  revoke_collection_permission now token collection_id user_id = do
    admin ← require_admin ext settings now token
    on_collections (drop_permission user_id collection_id)
    audit_as admin "revoke_permission"
        (user_target user_id (Text.◌++◌ " collection=" collection_id)) now

  unfoldable pub list_collection_permissions :
      Time → String → String → Exec Database (List CollectionPermissionResponse)
  list_collection_permissions now token collection_id = do
    admin ← require_admin ext settings now token
    gets (λ db.
        flat_map
          (λ p.
            map (λ u. permission_response p u.email)
              (select (λ u. u.id == p.user_id) db.users.rows))
          (select (λ p. str_eq p.collection_id collection_id) db.collection_permissions.rows))

  abbrev pub my_access : CollectionPermission → MyCollectionAccess
  my_access p = record { collection_id = p.collection_id; permission_level = p.permission_level }

  unfoldable pub get_my_collection_access : Time → String → Exec Database (List MyCollectionAccess)
  get_my_collection_access now token = do
    user ← get_current_user ext settings now token
    if is_admin user.role
        then pure []
        else gets (λ db.
          map my_access (select (λ p. p.user_id == user.id) db.collection_permissions.rows))
