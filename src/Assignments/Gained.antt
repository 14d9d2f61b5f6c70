-- ===== src/Assignments/Gained.antt =====
-- What a user gains by the assignment of a role.
use accelerator_pack_auth_se.Prelude.{
  ℕ, String, List, [], ◌∷◌, ◌≡◌, refl, ap, sym, ◌∙◌, Bool, ◌&&◌, ◌||◌, Result, ok, err, arith, ◌==◌,
  str_eq, select, any, contains, contains-dedup, Bool-cases, inl, inr,
}
use accelerator_pack_auth_se.Exec.{pure, ◌>>=◌, ◌>>◌}
use accelerator_pack_auth_se.Exec.Cases.{read-cases, found-cases}
use accelerator_pack_auth_se.Table.{Table, insert_row}
use accelerator_pack_auth_se.Table.Laws.{scalar_one_or_none-some, select-head}
use accelerator_pack_auth_se.Table.Any.{
  any_or, any_both_single, any-flat_map, any-select_and, any-map_const, nonempty-select, any_factor,
  any_same, contains-map, contains-flat_map,
}
use accelerator_pack_auth_se.Models.{Time}
use accelerator_pack_auth_se.Models.Rows.{
  User, DbRole, RolePermission, Permission, UserRole, AuditLog,
}
use accelerator_pack_auth_se.Models.Database.{Database}
use accelerator_pack_auth_se.External.{External}
use accelerator_pack_auth_se.Config.{Settings}
use accelerator_pack_auth_se.Audit.{log_audit}
use accelerator_pack_auth_se.Scopes.{assigned_permissions, fetch_user_role_permissions}
use accelerator_pack_auth_se.Queries.{one_where, refers}
use accelerator_pack_auth_se.Admin.{audit_as}
use Prim.Native.String as Text
use accelerator_pack_auth_se.Tokens.{require_admin, find_user}
use accelerator_pack_auth_se.Tokens.Guards.{require_admin-state, find_user-IsReader}
use accelerator_pack_auth_se.Roles.{find_role, role_codenames}
use accelerator_pack_auth_se.Assignments.{
  UserRoleAssign, UserRoleResponse, new_assignment, add_assignment, assign_as, assign_user_role,
  assignment_response, user_target,
}

-- The user has the role.
abbrev has_role : List UserRole → ℕ → DbRole → Bool
has_role assignments user_id r = any (λ ur. ur.role_id == r.id && ur.user_id == user_id) assignments

-- Some role of those given holds the permission.
abbrev reaches : Database → (DbRole → Bool) → Permission → Bool
reaches db given p =
    any (λ rp. rp.permission_id == p.id && any (λ r. r.id == rp.role_id && given r) db.roles.rows)
      db.role_permissions.rows

-- Some permission with the codename is held by a role of those given.
abbrev names : Database → (DbRole → Bool) → String → Bool
names db given s = any (λ p. str_eq p.codename s && reaches db given p) db.permissions.rows

fetched :
    (db : Database) (user_id : ℕ) (s : String)
    → contains (fetch_user_role_permissions db user_id) s
      ≡ names db (has_role db.user_roles.rows user_id) s
unfolding fetch_user_role_permissions assigned_permissions
fetched db user_id s =
    let named = λ (p : Permission). str_eq p.codename s in
    contains-dedup _ s
    ∙ contains-map (λ p. p.codename) _ s
    ∙ any-flat_map named _ db.permissions.rows
    ∙ any_same _ _ db.permissions.rows λ p.
      any-flat_map named _ (select (λ rp. rp.permission_id == p.id) db.role_permissions.rows)
      ∙ any-select_and _ _ db.role_permissions.rows
      ∙ any_same _ _ db.role_permissions.rows (λ rp.
        ap (λ b. rp.permission_id == p.id && b)
          (any-flat_map named _ (select (λ r. r.id == rp.role_id) db.roles.rows)
            ∙ any-select_and _ _ db.roles.rows
            ∙ any_same _ _ db.roles.rows (λ r.
              ap (λ b. r.id == rp.role_id && b)
                (any-map_const named p (select _ db.user_roles.rows)
                  ∙ ap (λ b. named p && b) (nonempty-select _ db.user_roles.rows)))
            ∙ any_factor (named p) _ _ db.roles.rows))
      ∙ any_factor (named p) _ _ db.role_permissions.rows

flip : (a b : ℕ) (c : Bool) → (a == b && c) ≡ (c && b == a)
flip a b c = ground arith

-- One more assignment of one role.
module _ (db : Database) (role_id : ℕ) (role : DbRole)
    (single : select (λ (r : DbRole). r.id == role_id) db.roles.rows ≡ role ∷ [])
    (old : DbRole → Bool) (c : Bool) where
  role_gained :
      (rp : RolePermission)
      → any (λ r. r.id == rp.role_id && ((role_id == r.id && c) || old r)) db.roles.rows
        ≡ ((c && rp.role_id == role_id) || any (λ r. r.id == rp.role_id && old r) db.roles.rows)
  role_gained rp =
      any_or (λ r. r.id == rp.role_id) (λ r. role_id == r.id && c) old db.roles.rows
      ∙ ap (λ b. b || any (λ r. r.id == rp.role_id && old r) db.roles.rows)
          (any_same _ _ db.roles.rows (λ r. ap (λ b. r.id == rp.role_id && b) (flip role_id r.id c))
            ∙ any_factor c _ _ db.roles.rows
            ∙ ap (λ b. c && b)
                (any_both_single (λ r. r.id == role_id) (λ r. r.id == rp.role_id) db.roles.rows role
                    single
                  ∙ own_key))
    where
      own_key : (role.id == rp.role_id) ≡ (rp.role_id == role_id)
      own_key =
          let e = select-head (λ (r : DbRole). r.id == role_id) db.roles.rows role [] single in
          ground arith

  permission_gained :
      (p : Permission)
      → reaches db (λ r. (role_id == r.id && c) || old r) p ≡ (
          (c
            && any
                (λ rp. rp.permission_id == p.id && rp.role_id == role_id)
                db.role_permissions.rows)
          || reaches db old p)
  permission_gained p =
      any_same _ _ db.role_permissions.rows
        (λ rp. ap (λ b. rp.permission_id == p.id && b) (role_gained rp))
      ∙ any_or (λ rp. rp.permission_id == p.id) _ _ db.role_permissions.rows
      ∙ ap (λ b. b || reaches db old p) (any_factor c _ _ db.role_permissions.rows)

  names_gained :
      (s : String)
      → names db (λ r. (role_id == r.id && c) || old r) s
        ≡ ((c && contains (role_codenames db role_id) s) || names db old s)
  unfolding role_codenames
  names_gained s =
      any_same _ _ db.permissions.rows
        (λ p. ap (λ b. str_eq p.codename s && b) (permission_gained p))
      ∙ any_or (λ p. str_eq p.codename s) _ _ db.permissions.rows
      ∙ ap (λ b. b || names db old s)
          (any_factor c _ _ db.permissions.rows
            ∙ ap (λ b. c && b)
                (any_same _ _ db.permissions.rows (λ p.
                    ap (λ b. str_eq p.codename s && b)
                      (sym (nonempty-select _ db.role_permissions.rows)))
                  ∙ sym (contains-flat_map (λ p. p.codename) _ db.permissions.rows s)))

module _ (ext : External) (settings : Settings) (now : Time) (token : String) (user_id : ℕ)
    (req : UserRoleAssign) where
  -- The scopes of the roles of every user after the call, which is refused or changes nothing else.
  abbrev pub Gained : Database → Result UserRoleResponse × Database → Type 0
  Gained db (ok response, db') =
      (other : ℕ) (s : String)
      → contains (fetch_user_role_permissions db' other) s ≡ (
          (user_id == other && contains (role_codenames db req.role_id) s)
          || contains (fetch_user_role_permissions db other) s)
  Gained db (err e, db') = db' ≡ db

  gained :
      (admin : User) (role : DbRole) (db : Database) (logs : Table AuditLog)
      → select (λ (r : DbRole). r.id == req.role_id) db.roles.rows ≡ role ∷ []
      → (other : ℕ) (s : String)
      → contains
          (fetch_user_role_permissions
            (record db {
              user_roles = insert_row (new_assignment admin user_id req now) db.user_roles;
              audit_logs = logs;
            })
            other)
          s
        ≡ ((user_id == other && contains (role_codenames db req.role_id) s)
            || contains (fetch_user_role_permissions db other) s)
  unfolding any
  gained admin role db logs single other s =
      fetched _ other s
      ∙ names_gained db req.role_id role single (has_role db.user_roles.rows other)
          (user_id == other) s
      ∙ ap (λ b. (user_id == other && contains (role_codenames db req.role_id) s) || b)
          (sym (fetched db other s))

  added :
      (admin : User) (role : DbRole) (db : Database)
      → select (λ (r : DbRole). r.id == req.role_id) db.roles.rows ≡ role ∷ []
      → Gained db (
          (add_assignment (new_assignment admin user_id req now) >>= λ assignment.
          audit_as admin "assign_role" (user_target user_id (Text.◌++◌ " role=" role.name)) now
          >> pure (assignment_response assignment role.name))
            db)
  unfolding add_assignment log_audit
  added admin role db single =
      elim (Bool-cases (refers (λ t. t.id) db.tenants.rows req.tenant_id)) [
        | inl known ↦ rw known (λ other s. gained admin role db _ single other s)
        | inr unknown ↦ rw unknown refl
      ]

  -- Assigning a role adds to the scopes that the user's tokens get from assigned roles exactly the
  -- codenames of the role, and nothing to those of any other user; a call that fails changes nothing.
  pub assign_user_role-Gained :
      (db : Database) → Gained db (assign_user_role ext settings now token user_id req db)
  unfolding assign_user_role assign_as add_assignment log_audit find_role one_where
  assign_user_role-Gained db =
      read-cases (Gained db) (require_admin ext settings now token) _ db
        (require_admin-state ext settings now token) (λ e. refl)
        λ admin h.
          read-cases (Gained db) (find_user user_id) _ db (find_user-IsReader user_id) (λ e. refl)
            λ user g. found-cases {B = UserRoleResponse} (Gained db) _ user _ db refl λ u e.
              read-cases (Gained db) (find_role req.role_id) _ db (λ d. refl) (λ f. refl)
                λ found k.
                  found-cases {B = UserRoleResponse} (Gained db) _ found _ db refl
                    λ role f. added admin role db (scalar_one_or_none-some _ role (k ∙ ap ok f))
