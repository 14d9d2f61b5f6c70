-- ===== src/Assignments.antt =====
-- The handlers of main.py that list, assign and remove the roles of a user; only an administrator may
-- call them.
pub mod Gained
mod Tests
use accelerator_pack_auth_se.Prelude.{
  ℕ, String, List, Bool, not, ◌&&◌, Option, some, ok, err, Error, http, integrity_error, ◌==◌,
  select, map, flat_map, if◌then◌else◌,
}
use accelerator_pack_auth_se.Exec.{Exec, found_or, pure, raise, gets, modify, ◌>>=◌, ◌>>◌}
use accelerator_pack_auth_se.Table.{Table, insert_row, delete_where}
use accelerator_pack_auth_se.Models.{Time}
use accelerator_pack_auth_se.Models.Rows.{User, DbRole, UserRole}
use accelerator_pack_auth_se.Models.Database.{Database}
use accelerator_pack_auth_se.External.{External}
use accelerator_pack_auth_se.Config.{Settings}
use accelerator_pack_auth_se.Decimal.{str}
use accelerator_pack_auth_se.Queries.{one_where, refers}
use accelerator_pack_auth_se.Tokens.{require_admin, find_user}
use accelerator_pack_auth_se.Admin.{audit_as}
use accelerator_pack_auth_se.Roles.{find_role, role_not_found, user_not_found}
use Prim.Native.String as Text

pub record UserRoleAssign : Type 0 where
  pub role_id : ℕ
  pub tenant_id : Option ℕ
  pub scope_type : Option String
  pub scope_id : Option String

pub record UserRoleResponse : Type 0 where
  pub id : ℕ
  pub user_id : ℕ
  pub role_id : ℕ
  pub role_name : String
  pub tenant_id : Option ℕ
  pub scope_type : Option String
  pub scope_id : Option String
  pub created_at : Time

abbrev pub assignment_response : UserRole → String → UserRoleResponse
assignment_response ur name = record {
  id = ur.id;
  user_id = ur.user_id;
  role_id = ur.role_id;
  role_name = name;
  tenant_id = ur.tenant_id;
  scope_type = ur.scope_type;
  scope_id = ur.scope_id;
  created_at = ur.created_at;
}

abbrev pub new_assignment : User → ℕ → UserRoleAssign → Time → ℕ → UserRole
new_assignment admin user_id req now id = record {
  id = id;
  user_id = user_id;
  role_id = req.role_id;
  tenant_id = req.tenant_id;
  scope_type = req.scope_type;
  scope_id = req.scope_id;
  granted_by = some admin.id;
  created_at = now;
}

-- The commit of an assignment; its user and its role were found, its tenant has to exist.
unfoldable pub add_assignment : (ℕ → UserRole) → Exec Database UserRole
add_assignment row db =
    let assignment = row db.user_roles.next_id in
    if refers (λ t. t.id) db.tenants.rows assignment.tenant_id
    then (ok assignment, record db { user_roles = insert_row row db.user_roles })
    else (err integrity_error, db)

unfoldable pub drop_assignment : ℕ → Database → Database
drop_assignment id db = record db {
  user_roles = record (db.user_roles) {
    rows = delete_where (λ ur. ur.id == id) db.user_roles.rows;
  };
}

abbrev pub user_target : ℕ → String → String
user_target user_id rest = Text.◌++◌ "user=" (Text.◌++◌ (str user_id) rest)

module _ (ext : External) (settings : Settings) where
  -- The join of the assignments with the names of the roles.
  unfoldable pub list_user_roles : Time → String → ℕ → Exec Database (List UserRoleResponse)
  list_user_roles now token user_id = do
    admin ← require_admin ext settings now token
    gets (λ db.
        flat_map
          (λ ur.
            map (λ r. assignment_response ur r.name)
              (select (λ r. r.id == ur.role_id) db.roles.rows))
          (select (λ ur. ur.user_id == user_id) db.user_roles.rows))

  -- What the handler does for an administrator.
  unfoldable pub assign_as : Time → ℕ → UserRoleAssign → User → Exec Database UserRoleResponse
  assign_as now user_id req admin = do
    user ← find_user user_id
    found_or (raise user_not_found) user λ u. do
      found ← find_role req.role_id
      found_or (raise role_not_found) found λ role. do
        assignment ← add_assignment (new_assignment admin user_id req now)
        audit_as admin "assign_role" (user_target user_id (Text.◌++◌ " role=" role.name)) now
        pure (assignment_response assignment role.name)

  unfoldable pub assign_user_role :
      Time → String → ℕ → UserRoleAssign → Exec Database UserRoleResponse
  assign_user_role now token user_id req = do
    admin ← require_admin ext settings now token
    assign_as now user_id req admin

  unfoldable pub remove_user_role : Time → String → ℕ → ℕ → Exec Database Unit
  remove_user_role now token user_id assignment_id = do
    admin ← require_admin ext settings now token
    found ← one_where (λ db. db.user_roles) (λ ur. ur.id == assignment_id && ur.user_id == user_id)
    found_or (raise (http 404 "Role assignment not found")) found λ assignment. do
      modify (drop_assignment assignment_id)
      audit_as admin "remove_role"
          (user_target user_id (Text.◌++◌ " assignment=" (str assignment_id))) now
