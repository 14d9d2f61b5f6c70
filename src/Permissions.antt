-- ===== src/Permissions.antt =====
-- `check_permission` of permission_service.py: the role bypass, assigned roles, the system role of
-- the user's role, direct grants and the ownership of a resource.
pub mod Check
pub mod Permitted
pub mod Sound
pub mod Complete
pub mod Answers
mod Tests
use accelerator_pack_auth_se.Prelude.{
  ℕ, String, List, [], ◌∷◌, Bool, true, false, not, ◌&&◌, ◌||◌, Option, none, some, Result, ok, err,
  map, flat_map, ◌==◌, str_eq, select, is_some, if◌then◌else◌, ◌>>=◌,
}
use accelerator_pack_auth_se.Table.{Table, scalar_one_or_none}
use accelerator_pack_auth_se.Models.{is_admin, role_value}
use accelerator_pack_auth_se.Models.Rows.{
  User, Permission, RolePermission, DbRole, UserRole, DirectGrant, ResourceOwnership,
}
use accelerator_pack_auth_se.Models.Database.{Database}
use accelerator_pack_auth_se.ScopeString.{text_or_empty}

-- The rows of the first query: the permission once for each assignment that reaches it.
unfoldable pub role_rows : Database → User → String → List Permission
role_rows db user codename =
    flat_map
      (λ p.
        flat_map
          (λ rp.
            flat_map
              (λ r.
                map (λ ur. p)
                  (select (λ ur. ur.role_id == r.id && ur.user_id == user.id) db.user_roles.rows))
              (select (λ r. r.id == rp.role_id) db.roles.rows))
          (select (λ rp. rp.permission_id == p.id) db.role_permissions.rows))
      (select (λ p. str_eq p.codename codename) db.permissions.rows)

-- The rows of the second query, by the name of the user's role.
unfoldable pub system_rows : Database → User → String → List Permission
system_rows db user codename =
    flat_map
      (λ p.
        flat_map
          (λ rp.
            map (λ r. p)
              (select
                (λ r. r.id == rp.role_id && str_eq r.name (role_value user.role) && r.is_system)
                db.roles.rows))
          (select (λ rp. rp.permission_id == p.id) db.role_permissions.rows))
      (select (λ p. str_eq p.codename codename) db.permissions.rows)

-- `column == text` in a condition: a NULL column passes no comparison.
abbrev pub column_eq : Option String → String → Bool
column_eq none s = false
column_eq (some t) s = str_eq t s

-- A condition that is added only where its argument is given and not empty.
abbrev pub when_given : Option String → (String → Bool) → Bool
when_given arg test = let text = text_or_empty arg in if str_eq text "" then true else test text

unfoldable pub grant_rows :
    Database → User → String → Option String → Option String → List DirectGrant
grant_rows db user codename resource_type resource_id =
    flat_map
      (λ g.
        map (λ p. g)
          (select (λ p. p.id == g.permission_id && str_eq p.codename codename) db.permissions.rows))
      (select
        (λ g.
          g.user_id == user.id
          && when_given resource_type (column_eq g.resource_type)
          && when_given resource_id (column_eq g.resource_id))
        db.direct_grants.rows)

-- The last query is made only where both arguments are given.
unfoldable pub ownership_rows :
    Database → User → Option String → Option String → List ResourceOwnership
ownership_rows db user resource_type resource_id =
    if str_eq (text_or_empty resource_type) "" || str_eq (text_or_empty resource_id) ""
    then []
    else select
        (λ o.
          str_eq o.resource_type (text_or_empty resource_type)
          && str_eq o.resource_id (text_or_empty resource_id)
          && o.owner_user_id == user.id)
        db.resource_ownership.rows

-- `if result.scalar_one_or_none(): return True`, and the rest of the function.
unfoldable pub or_else : {A : Type 0} → List A → Result Bool → Result Bool
or_else rows rest = do row ← scalar_one_or_none rows; if is_some row then ok true else rest

unfoldable pub check_permission :
    Database → User → String → Option String → Option String → Result Bool
check_permission db user codename resource_type resource_id =
    if is_admin user.role
    then ok true
    else or_else (role_rows db user codename) (
        or_else (system_rows db user codename) (
          or_else (grant_rows db user codename resource_type resource_id)
            (or_else (ownership_rows db user resource_type resource_id) (ok false))))
