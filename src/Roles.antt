-- ===== src/Roles.antt =====
-- The handlers of main.py for roles, their permissions, and their assignment to users. `token` is the
-- caller's; the database deletes what refers to a deleted row where models.py says CASCADE.
pub mod System
pub mod Granted
mod Tests
use accelerator_pack_auth_se.Prelude.{
  ℕ, String, List, [], ◌∷◌, ◌++◌, Bool, true, false, not, ◌&&◌, ◌||◌, Option, none, some, Result,
  ok, err, Error, http, integrity_error, ◌==◌, str_eq, any, select, map, flat_map, is_some,
  if◌then◌else◌,
}
use accelerator_pack_auth_se.Prelude as Result
use accelerator_pack_auth_se.Exec.{
  Exec, found_or, pure, raise, lift, gets, modify, guard, ◌>>=◌, ◌>>◌,
}
use accelerator_pack_auth_se.Table.{
  Table, insert_row, update_where, delete_where, scalar_one_or_none,
}
use accelerator_pack_auth_se.Models.{Time}
use accelerator_pack_auth_se.Models.Rows.{User, DbRole, Permission, RolePermission, UserRole}
use accelerator_pack_auth_se.Models.Database.{Database}
use accelerator_pack_auth_se.External.{External}
use accelerator_pack_auth_se.Config.{Settings}
use accelerator_pack_auth_se.Decimal.{str}
use accelerator_pack_auth_se.Queries.{one_where, order_text, refers, same_key}
use accelerator_pack_auth_se.Permissions.{check_permission}
use accelerator_pack_auth_se.Clients.{Patch}
use accelerator_pack_auth_se.Tokens.{require_admin, require_permission, find_user}
use accelerator_pack_auth_se.Admin.{audit_as}
use Prim.Native.String as Text

pub record RoleCreate : Type 0 where
  pub name : String
  pub description : Option String
  pub tenant_id : Option ℕ

pub record RoleUpdate : Type 0 where
  pub name : Option String
  pub description : Option String
  pub is_default : Option Bool

pub record RoleResponse : Type 0 where
  pub id : ℕ
  pub name : String
  pub description : Option String
  pub is_system : Bool
  pub is_default : Bool
  pub tenant_id : Option ℕ
  pub permissions : List String
  pub created_at : Time

pub record PermissionCheck : Type 0 where
  pub user_id : ℕ
  pub permission : String
  pub resource_type : Option String
  pub resource_id : Option String

pub record PermissionCheckResult : Type 0 where
  pub allowed : Bool
  pub permission : String
  pub user_id : ℕ

abbrev pub role_not_found : Error
role_not_found = http 404 "Role not found"

abbrev pub user_not_found : Error
user_not_found = http 404 "User not found"

-- The codenames of the permissions that the role holds.
unfoldable pub role_codenames : Database → ℕ → List String
role_codenames db role_id =
    flat_map
      (λ p.
        map (λ rp. p.codename)
          (select (λ rp. rp.permission_id == p.id && rp.role_id == role_id)
            db.role_permissions.rows))
      db.permissions.rows

unfoldable pub build_role_response : Database → DbRole → RoleResponse
build_role_response db role = record {
  id = role.id;
  name = role.name;
  description = role.description;
  is_system = role.is_system;
  is_default = role.is_default;
  tenant_id = role.tenant_id;
  permissions = role_codenames db role.id;
  created_at = role.created_at;
}

-- A value of the request replaces the column where it is given.
abbrev pub or_keep : {A : Type 0} → Option A → A → A
or_keep none old = old
or_keep (some new) old = new

abbrev pub or_keep_some : {A : Type 0} → Option A → Option A → Option A
or_keep_some none old = old
or_keep_some (some new) old = some new

unfoldable pub apply_role_update : RoleUpdate → DbRole → DbRole
apply_role_update req role = record role {
  name = or_keep req.name role.name;
  description = or_keep_some req.description role.description;
  is_default = or_keep req.is_default role.is_default;
}

-- The constraint `uq_role_tenant_name`: NULL is equal to no tenant.
abbrev pub same_tenant_name : Option ℕ → String → DbRole → Bool
same_tenant_name none name r = false
same_tenant_name (some t) name r = same_key r.tenant_id (some t) && str_eq r.name name

-- The commit of a new role.
unfoldable pub add_role : (ℕ → DbRole) → Exec Database DbRole
add_role row db =
    let role = row db.roles.next_id in
    if any (same_tenant_name role.tenant_id role.name) db.roles.rows
      || not (refers (λ t. t.id) db.tenants.rows role.tenant_id)
    then (err integrity_error, db)
    else (ok role, record db { roles = insert_row row db.roles })

abbrev pub put_role : DbRole → Database → Database
put_role role db = record db {
  roles = record (db.roles) {
    rows = update_where (λ r. r.id == role.id) (λ r. role) db.roles.rows;
  };
}

-- The commit of a changed role.
unfoldable pub save_role : DbRole → Exec Database DbRole
save_role role db =
    if any (λ r. not (r.id == role.id) && same_tenant_name role.tenant_id role.name r) db.roles.rows
    then (err integrity_error, db)
    else (ok role, put_role role db)

-- `db.delete(role)`, with the rows that refer to the role.
unfoldable pub drop_role : ℕ → Database → Database
drop_role role_id db = record db {
  roles = record (db.roles) { rows = delete_where (λ r. r.id == role_id) db.roles.rows };
  role_permissions = record (db.role_permissions) {
    rows = delete_where (λ rp. rp.role_id == role_id) db.role_permissions.rows;
  };
  user_roles = record (db.user_roles) {
    rows = delete_where (λ ur. ur.role_id == role_id) db.user_roles.rows;
  };
  group_roles = record (db.group_roles) {
    rows = delete_where (λ gr. gr.role_id == role_id) db.group_roles.rows;
  };
  claim_role_mappings = record (db.claim_role_mappings) {
    rows = delete_where (λ m. m.role_id == role_id) db.claim_role_mappings.rows;
  };
}

-- The keys of the permissions with the given codenames; a codename that no permission has is skipped.
unfoldable pub permission_ids : List Permission → List String → Result (List ℕ)
permission_ids perms [] = ok []
permission_ids perms (codename ∷ codenames) =
    Result.◌>>=◌ (scalar_one_or_none (select (λ p. str_eq p.codename codename) perms)) λ found.
      Result.◌>>=◌ (permission_ids perms codenames)
        λ rest. ok (elim found [ none ↦ rest | some p ↦ p.id ∷ rest ])

unfoldable pub repeats_key : List ℕ → Bool
repeats_key [] = false
repeats_key (k ∷ ks) = any (λ j. j == k) ks || repeats_key ks

abbrev pub put_permissions : ℕ → List ℕ → Database → Database
put_permissions role_id ids db = record db {
  role_permissions = record (db.role_permissions) {
    rows =
        map (λ id. record { role_id = role_id; permission_id = id }) ids
        ++ delete_where (λ rp. rp.role_id == role_id) db.role_permissions.rows;
  };
}

-- The rows of the role are replaced; a repeated key violates the primary key, and the transaction is
-- rolled back.
unfoldable pub replace_permissions : ℕ → List ℕ → Exec Database Unit
replace_permissions role_id ids db =
    if repeats_key ids then (err integrity_error, db) else (ok tt, put_permissions role_id ids db)

unfoldable pub find_role : ℕ → Exec Database (Option DbRole)
find_role role_id = one_where (λ db. db.roles) (λ r. r.id == role_id)

abbrev pub role_target : ℕ → String
role_target role_id = Text.◌++◌ "role=" (str role_id)

module _ (ext : External) (settings : Settings) where
  unfoldable pub list_roles : Time → String → Exec Database (List RoleResponse)
  list_roles now token = do
    user ← require_permission ext settings "roles:list" now token
    gets (λ db. map (build_role_response db) (order_text (λ r. r.name) db.roles.rows))

  abbrev pub new_role : RoleCreate → Time → ℕ → DbRole
  new_role req now id = record {
    id = id;
    tenant_id = req.tenant_id;
    name = req.name;
    description = req.description;
    is_system = false;
    is_default = false;
    created_at = now;
  }

  unfoldable pub create_role : Time → String → RoleCreate → Exec Database RoleResponse
  create_role now token req = do
    admin ← require_permission ext settings "roles:create" now token
    existing ←
        one_where (λ db. db.roles)
          (λ r. str_eq r.name req.name && same_key r.tenant_id req.tenant_id)
    guard (not (is_some existing)) (http 409 "Role name already exists")
    role ← add_role (new_role req now)
    audit_as admin "create_role" (Text.◌++◌ "role=" role.name) now
    gets (λ db. build_role_response db role)

  unfoldable pub get_role : Time → String → ℕ → Exec Database RoleResponse
  get_role now token role_id = do
    user ← require_permission ext settings "roles:read" now token
    found ← find_role role_id
    found_or (raise role_not_found) found λ role. gets (λ db. build_role_response db role)

  unfoldable pub update_role : Time → String → ℕ → RoleUpdate → Exec Database RoleResponse
  update_role now token role_id req = do
    admin ← require_permission ext settings "roles:update" now token
    found ← find_role role_id
    found_or (raise role_not_found) found λ role. do
      guard (not role.is_system) (http 403 "Cannot modify system roles")
      saved ← save_role (apply_role_update req role)
      audit_as admin "update_role" (role_target role_id) now
      gets (λ db. build_role_response db saved)

  unfoldable pub delete_role : Time → String → ℕ → Exec Database Unit
  delete_role now token role_id = do
    admin ← require_permission ext settings "roles:delete" now token
    found ← find_role role_id
    found_or (raise role_not_found) found λ role. do
      guard (not role.is_system) (http 403 "Cannot delete system roles")
      modify (drop_role role_id)
      audit_as admin "delete_role" (Text.◌++◌ "role=" role.name) now

  unfoldable pub set_role_permissions : Time → String → ℕ → List String → Exec Database RoleResponse
  set_role_permissions now token role_id permission_codenames = do
    admin ← require_permission ext settings "roles:update" now token
    found ← find_role role_id
    found_or (raise role_not_found) found λ role. do
      guard (not role.is_system) (http 403 "Cannot modify system role permissions")
      db ← gets (λ db. db)
      ids ← lift (permission_ids db.permissions.rows permission_codenames)
      replace_permissions role_id ids
      audit_as admin "set_role_permissions" (role_target role_id) now
      gets (λ db. build_role_response db role)

  unfoldable pub list_permissions : Time → String → Exec Database (List Permission)
  list_permissions now token = do
    user ← require_permission ext settings "permissions:list" now token
    gets (λ db. order_text (λ p. p.codename) db.permissions.rows)

  unfoldable pub check_user_permission :
      Time → String → PermissionCheck → Exec Database PermissionCheckResult
  check_user_permission now token req = do
    caller ← require_permission ext settings "permissions:check" now token
    found ← find_user req.user_id
    found_or (raise user_not_found) found λ user. do
      db ← gets (λ db. db)
      allowed ← lift (check_permission db user req.permission req.resource_type req.resource_id)
      pure (record { allowed = allowed; permission = req.permission; user_id = req.user_id })
