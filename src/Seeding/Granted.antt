-- ===== src/Seeding/Granted.antt =====
-- What the seeded roles permit at run time.
use accelerator_pack_auth_se.Prelude.{
  String, List, [], ◌∷◌, ◌≡◌, ◌≢◌, refl, ◌∙◌, ap, Bool, true, false, ◌&&◌, ◌||◌, Option, some, ok,
  arith, ◌==◌, str_eq, eq_iff, select, any, map, flat_map, contains,
}
use accelerator_pack_auth_se.Table.Laws.{any_of_select, select-head}
use accelerator_pack_auth_se.Table.Any.{contains-flat_map, nonempty-select, any-select_and}
use accelerator_pack_auth_se.Models.{Time, role_value}
use accelerator_pack_auth_se.Models.Rows.{User, DbRole, Permission, RolePermission}
use accelerator_pack_auth_se.Models.Database.{Database}
use accelerator_pack_auth_se.PackModels.{PackAuthModel, validate_consistency, permissions_for_role}
use accelerator_pack_auth_se.PackModels.Declared.{permissions_for_role-declared}
use accelerator_pack_auth_se.Permissions.{system_rows, check_permission}
use accelerator_pack_auth_se.Permissions.Check.{check_permission-rows}
use accelerator_pack_auth_se.Table.Joins.{nonempty, nonempty-append}
use accelerator_pack_auth_se.Roles.{role_codenames}
use accelerator_pack_auth_se.Seeding.{
  is_codename, is_system_named, find_codename, is_grant, seed_roles_and_permissions,
}
use accelerator_pack_auth_se.Seeding.Ensure.{IsOne}
use accelerator_pack_auth_se.Seeding.EachRole.{HasRole}
use accelerator_pack_auth_se.Seeding.Again.{IsSeeded, seed_roles_and_permissions-IsSeeded}

find_codename-single :
    (ps : List Permission) (s : String) (p : Permission)
    → select (is_codename s) ps ≡ p ∷ []
    → find_codename ps s ≡ some p
unfolding find_codename select
find_codename-single [] s p h = cc
find_codename-single (q ∷ ps) s p h = ground (arith, find_codename-single ps s p)

both : (a b : Bool) → a ≡ true → b ≡ true → (a && b) ≡ true
both a b h k = ground arith

module _ {A : Type 0} where
  nonempty-select-any : (p : A → Bool) (xs : List A) → nonempty (select p xs) ≡ any p xs
  unfolding select any
  nonempty-select-any p [] = refl
  nonempty-select-any p (x ∷ xs) = ground (arith, nonempty-select-any p xs)

module _ {A B : Type 0} where
  nonempty-flat_map :
      (f : A → List B) (xs : List A) → nonempty (flat_map f xs) ≡ any (λ x. nonempty (f x)) xs
  unfolding flat_map any
  nonempty-flat_map f [] = refl
  nonempty-flat_map f (x ∷ xs) =
      nonempty-append (f x) (flat_map f xs) ∙ ap (λ b. nonempty (f x) || b) (nonempty-flat_map f xs)

  nonempty-map : (f : A → B) (xs : List A) → nonempty (map f xs) ≡ nonempty xs
  nonempty-map f [] = refl
  nonempty-map f (x ∷ xs) = refl

-- A permission that the pack gives a role, in a seeded database.
module _ (model model' : PackAuthModel) (db : Database) (name s : String)
    (valid : validate_consistency model ≡ ok model') (seeded : IsSeeded model db)
    (known : contains model.roles name ≡ true)
    (given : contains (permissions_for_role model name) s ≡ true) where
  abbrev own : HasRole model db.permissions.rows name db
  own = seeded.role name known

  abbrev named : IsOne (is_codename s) db.permissions
  named = seeded.permission s (permissions_for_role-declared model model' name s valid given)

  abbrev granted : IsOne (is_grant own.role.id named.0.id) db.role_permissions
  granted = own.granted s named.0 given (find_codename-single db.permissions.rows s named.0 named.1)

  granted_row : is_grant own.role.id named.0.id granted.0 ≡ true
  granted_row =
      select-head (is_grant own.role.id named.0.id) db.role_permissions.rows granted.0 [] granted.1

  swapped :
      (rp : RolePermission)
      → is_grant own.role.id named.0.id rp ≡ true
      → (rp.permission_id == named.0.id && rp.role_id == own.role.id) ≡ true
  swapped rp h = ground arith

  role_codenames-seeded : contains (role_codenames db own.role.id) s ≡ true
  unfolding role_codenames
  role_codenames-seeded =
      contains-flat_map (λ p. p.codename) _ db.permissions.rows s
      ∙ any_of_select (is_codename s) _ db.permissions.rows named.0 [] named.1 (
          both _ _ (select-head (is_codename s) db.permissions.rows named.0 [] named.1) (
            nonempty-select _ db.role_permissions.rows
            ∙ any_of_select (is_grant own.role.id named.0.id) _ db.role_permissions.rows granted.0
                [] granted.1 (swapped granted.0 granted_row)))

  system_rows-seeded :
      (user : User) → role_value user.role ≡ name → nonempty (system_rows db user s) ≡ true
  unfolding system_rows any
  system_rows-seeded user e =
      nonempty-flat_map _ (select (is_codename s) db.permissions.rows)
      ∙ ap (any _) named.1
      ∙ ap (λ b. b || false)
          (nonempty-flat_map _
              (select (λ rp. rp.permission_id == named.0.id) db.role_permissions.rows)
            ∙ any-select_and _ _ db.role_permissions.rows
            ∙ any_of_select (is_grant own.role.id named.0.id) _ db.role_permissions.rows granted.0
                [] granted.1
                (both _ _ (first granted.0 granted_row) (
                  nonempty-map _ (select _ db.roles.rows)
                  ∙ nonempty-select-any _ db.roles.rows
                  ∙ any_of_select (is_system_named name) _ db.roles.rows own.role [] own.single
                      (reached granted.0 own.role granted_row system_row))))
    where
      first :
          (rp : RolePermission)
          → is_grant own.role.id named.0.id rp ≡ true
          → (rp.permission_id == named.0.id) ≡ true
      first rp h = ground arith

      system_row : is_system_named name own.role ≡ true
      system_row = select-head (is_system_named name) db.roles.rows own.role [] own.single

      reached :
          (rp : RolePermission) (r : DbRole)
          → is_grant r.id named.0.id rp ≡ true
          → is_system_named name r ≡ true
          → (r.id == rp.role_id && str_eq r.name (role_value user.role) && r.is_system) ≡ true
      reached rp r h k = ground (arith, eq_iff r.name name, eq_iff r.name (role_value user.role))

-- After a start with a pack that passes its validation, a permission that the pack gives to the name of
-- a user's role is never denied to that user by the check at run time, whatever the resource.
pub check_permission-seeded :
    (model model' : PackAuthModel) (now : Time) (db : Database) (user : User) (s : String)
    (resource_type resource_id : Option String)
    → validate_consistency model ≡ ok model'
    → (seed_roles_and_permissions model now db).0 ≡ ok tt
    → contains model.roles (role_value user.role) ≡ true
    → contains (permissions_for_role model (role_value user.role)) s ≡ true
    → check_permission (seed_roles_and_permissions model now db).1 user s resource_type resource_id
      ≢ ok false
check_permission-seeded model model' now db user s resource_type resource_id valid started known
      given denied =
    let db' = (seed_roles_and_permissions model now db).1 in
    ground (
      arith,
      check_permission-rows db' user s resource_type resource_id false denied,
      system_rows-seeded model model' db' (role_value user.role) s valid
          (seed_roles_and_permissions-IsSeeded model now db started) known given user refl,
    )
