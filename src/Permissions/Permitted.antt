-- ===== src/Permissions/Permitted.antt =====
-- What a user is permitted, by the rows of the database.
use accelerator_pack_auth_se.Prelude.{
  ℕ, String, ◌≡◌, ◌≢◌, refl, ap, subst, Bool, true, ◌&&◌, Option, none, some, arith, ◌==◌, str_eq,
  eq_iff, Bool-cases, ◌⊎◌, inl, inr,
}
use accelerator_pack_auth_se.Table.Membership.{In}
use accelerator_pack_auth_se.Models.{Role, role_value}
use accelerator_pack_auth_se.Models.Rows.{
  User, Permission, RolePermission, DbRole, UserRole, DirectGrant, ResourceOwnership,
}
use accelerator_pack_auth_se.Models.Database.{Database}
use accelerator_pack_auth_se.ScopeString.{text_or_empty}
use accelerator_pack_auth_se.Permissions.{column_eq, when_given}

-- A role of the database holds the permission.
pub record IsHeldBy (db : Database) (p : Permission) (r : DbRole) : Type 0 where
  pub role_row : In r db.roles.rows
  pub link : RolePermission
  pub link_row : In link db.role_permissions.rows
  pub of_role : link.role_id ≡ r.id
  pub of_permission : link.permission_id ≡ p.id

-- The user is assigned the role.
pub record IsAssigned (db : Database) (user : User) (r : DbRole) : Type 0 where
  pub assignment : UserRole
  pub assignment_row : In assignment db.user_roles.rows
  pub of_user : assignment.user_id ≡ user.id
  pub of_role : assignment.role_id ≡ r.id

-- A grant is good for what the check is about: an argument that is missing or empty is about anything.
abbrev pub Covers : Option String → Option String → Type 0
Covers column asked = (text_or_empty asked ≡ "") ⊎ (column ≡ asked)

-- What permits a user, written out by rows.
pub data IsPermitted (db : Database) (user : User) (codename : String)
    (resource_type resource_id : Option String) : Type 0 where
  by_admin : user.role ≡ Role.admin → IsPermitted db user codename resource_type resource_id
  by_assignment :
      (p : Permission) (r : DbRole)
      → In p db.permissions.rows
      → p.codename ≡ codename
      → IsHeldBy db p r
      → IsAssigned db user r
      → IsPermitted db user codename resource_type resource_id
  by_system_role :
      (p : Permission) (r : DbRole)
      → In p db.permissions.rows
      → p.codename ≡ codename
      → IsHeldBy db p r
      → r.name ≡ role_value user.role
      → r.is_system ≡ true
      → IsPermitted db user codename resource_type resource_id
  by_grant :
      (p : Permission) (g : DirectGrant)
      → In p db.permissions.rows
      → p.codename ≡ codename
      → In g db.direct_grants.rows
      → g.permission_id ≡ p.id
      → g.user_id ≡ user.id
      → Covers g.resource_type resource_type
      → Covers g.resource_id resource_id
      → IsPermitted db user codename resource_type resource_id
  by_ownership :
      (o : ResourceOwnership)
      → In o db.resource_ownership.rows
      → resource_type ≡ some o.resource_type
      → resource_id ≡ some o.resource_id
      → o.resource_type ≢ ""
      → o.resource_id ≢ ""
      → o.owner_user_id ≡ user.id
      → IsPermitted db user codename resource_type resource_id

pub num_eq : (a b : ℕ) → (a == b) ≡ true → a ≡ b
num_eq a b h = ground arith

pub same_num : (a b : ℕ) → a ≡ b → (a == b) ≡ true
same_num a b h = ground arith

pub same_text : (s t : String) → s ≡ t → str_eq s t ≡ true
same_text s t h = (eq_iff s t).1 h

pub three : (a b c : Bool) → (a && b && c) ≡ true → (a ≡ true) × (b ≡ true) × (c ≡ true)
three a b c h = (ground arith, ground arith, ground arith)

pub all_three : (a b c : Bool) → a ≡ true → b ≡ true → c ≡ true → (a && b && c) ≡ true
all_three a b c h k l = ground arith

pub and_true : (a b : Bool) → a ≡ true → b ≡ true → (a && b) ≡ true
and_true a b h k = ground arith

pub Covers-when :
    (column asked : Option String)
    → when_given asked (column_eq column) ≡ true
    → Covers column asked
Covers-when column none h = inl refl
Covers-when none (some t) h = ground (arith, eq_iff t "")
Covers-when (some s) (some t) h = elim (Bool-cases (str_eq t "")) [
  | inl e ↦ inl ((eq_iff t "").0 e)
  | inr e ↦ inr (ap some ((eq_iff s t).0 (rw e at h)))
]

pub when-Covers :
    (column asked : Option String)
    → Covers column asked
    → when_given asked (column_eq column) ≡ true
when-Covers column asked (inl e) = rw (same_text (text_or_empty asked) "" e) refl
when-Covers none asked (inr e) = subst (λ a. when_given a (column_eq none) ≡ true) e refl
when-Covers (some s) asked (inr e) =
    subst (λ a. when_given a (column_eq (some s)) ≡ true) e (ground (arith, eq_iff s s))
