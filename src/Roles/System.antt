-- ===== src/Roles/System.antt =====
-- What the handlers of roles leave alone: the system roles.
use accelerator_pack_auth_se.Prelude.{
  ℕ, String, List, [], ◌∷◌, ◌≡◌, refl, ap, sym, subst, ◌∙◌, fun_ext, Bool, true, false, not,
  is_some, ◌&&◌, Error, Result, ok, err, arith, ◌==◌, ==_refl, select, any, if◌then◌else◌,
}
use accelerator_pack_auth_se.Exec.{Exec, found_or, ◌>>=◌}
use accelerator_pack_auth_se.Exec.Cases.{
  read-cases, bind-cases, guard-cases, found-cases, lift-cases,
}
use accelerator_pack_auth_se.Table.{insert_row}
use accelerator_pack_auth_se.Table.Laws.{scalar_one_or_none-some, select-head}
use accelerator_pack_auth_se.Table.Apart.{
  IsApart, IsApart-pointwise, IsApart-single, select-delete_apart, any-delete_apart,
  select-replace_apart, any-replace_apart, select-map_none,
}
use accelerator_pack_auth_se.Models.{Time}
use accelerator_pack_auth_se.Models.Rows.{User, DbRole, RolePermission, Permission}
use accelerator_pack_auth_se.Models.Database.{Database}
use accelerator_pack_auth_se.External.{External}
use accelerator_pack_auth_se.Config.{Settings}
use accelerator_pack_auth_se.Audit.{log_audit}
use accelerator_pack_auth_se.Queries.{one_where, one_where-IsReader}
use accelerator_pack_auth_se.Tokens.{require_permission}
use accelerator_pack_auth_se.Tokens.Guards.{require_permission-state}
use accelerator_pack_auth_se.Roles.{
  RoleCreate, RoleUpdate, RoleResponse, find_role, add_role, save_role, drop_role,
  apply_role_update, put_role, put_permissions, permission_ids, replace_permissions, new_role,
  create_role, update_role, delete_role, set_role_permissions,
}

-- A system role with the given key.
abbrev is_system_key : ℕ → DbRole → Bool
is_system_key k r = r.is_system && r.id == k

abbrev pub is_system_grant : List DbRole → RolePermission → Bool
is_system_grant roles rp = any (is_system_key rp.role_id) roles

-- The system roles, what they are given, and the permissions that there are.
abbrev pub system_part : Database → List DbRole × List RolePermission × List Permission
system_part db = (
  select (λ r. r.is_system) db.roles.rows,
  select (is_system_grant db.roles.rows) db.role_permissions.rows,
  db.permissions.rows,
)

part_eq :
    (db db' : Database)
    → select (λ r. r.is_system) db'.roles.rows ≡ select (λ r. r.is_system) db.roles.rows
    → ((k : ℕ) → any (is_system_key k) db'.roles.rows ≡ any (is_system_key k) db.roles.rows)
    → select (is_system_grant db.roles.rows) db'.role_permissions.rows
      ≡ select (is_system_grant db.roles.rows) db.role_permissions.rows
    → db'.permissions.rows ≡ db.permissions.rows
    → system_part db' ≡ system_part db
part_eq db db' roles keys grants perms =
    let same : is_system_grant db'.roles.rows ≡ is_system_grant db.roles.rows =
      fun_ext (λ rp. keys rp.role_id) in
    let grants' = ap (λ q. select q db'.role_permissions.rows) same ∙ grants in
    λ i. (roles i, grants' i, perms i)

abbrev IsKept : {A : Type 0} → Database → Result A × Database → Type 0
IsKept db (r, db') = system_part db' ≡ system_part db

IsKept-if :
    {A : Type 0} (db : Database) (b : Bool) (e : Error) (changed : Result A × Database)
    → IsKept db changed
    → IsKept db (if b then (err e, db) else changed)
IsKept-if db true e changed h = refl
IsKept-if db false e changed h = h

-- The role that a handler found is the only one with its key, and is no system role.
module _ (db : Database) (role_id : ℕ) (role : DbRole)
    (found : select (λ (r : DbRole). r.id == role_id) db.roles.rows ≡ role ∷ [])
    (custom : role.is_system ≡ false) where
  roles-IsApart : IsApart (λ r. r.id == role_id) (λ r. r.is_system) db.roles.rows
  roles-IsApart = IsApart-single _ _ db.roles.rows role found custom

  keys-IsApart : (k : ℕ) → IsApart (λ r. r.id == role_id) (is_system_key k) db.roles.rows
  keys-IsApart k = IsApart-single _ _ db.roles.rows role found (ground arith)

  no_key :
      (roles : List DbRole)
      → IsApart (λ r. r.id == role_id) (λ r. r.is_system) roles
      → any (is_system_key role_id) roles ≡ false
  unfolding any
  no_key [] h = refl
  no_key (r ∷ rs) h = ground (arith, no_key rs)

  grant_apart :
      (rp : RolePermission)
      → (rp.role_id == role_id) ≡ true
      → is_system_grant db.roles.rows rp ≡ false
  grant_apart rp e =
      let same : rp.role_id ≡ role_id = ground arith in
      ap (λ k. any (is_system_key k) db.roles.rows) same ∙ no_key db.roles.rows roles-IsApart

  grants-IsApart :
      IsApart
        (λ (rp : RolePermission). rp.role_id == role_id)
        (is_system_grant db.roles.rows)
        db.role_permissions.rows
  grants-IsApart = IsApart-pointwise _ _ db.role_permissions.rows grant_apart

  drop_role-kept : system_part (drop_role role_id db) ≡ system_part db
  unfolding drop_role
  drop_role-kept =
      part_eq db (drop_role role_id db) (select-delete_apart _ _ db.roles.rows roles-IsApart)
        (λ k. any-delete_apart _ _ db.roles.rows (keys-IsApart k))
        (select-delete_apart _ _ db.role_permissions.rows grants-IsApart) refl

  save_role-IsKept :
      (r : DbRole) → r.id ≡ role_id → r.is_system ≡ false → IsKept db (save_role r db)
  unfolding save_role
  save_role-IsKept r same e =
      IsKept-if db _ _ (ok r, put_role r db)
        (part_eq db (put_role r db)
          (select-replace_apart _ _ (λ _. r) db.roles.rows (by_key (λ x. x.is_system) roles-IsApart)
            (λ x h. e))
          (λ k.
            any-replace_apart _ _ (λ _. r) db.roles.rows (by_key (is_system_key k) (keys-IsApart k))
              (λ x h. ground arith))
          refl refl)
    where
      by_key :
          (q : DbRole → Bool)
          → IsApart (λ x. x.id == role_id) q db.roles.rows
          → IsApart (λ x. x.id == r.id) q db.roles.rows
      by_key q h = subst (λ k. IsApart (λ x. x.id == k) q db.roles.rows) (sym same) h

  replace_permissions-IsKept : (ids : List ℕ) → IsKept db (replace_permissions role_id ids db)
  unfolding replace_permissions
  replace_permissions-IsKept ids =
      IsKept-if db _ _ (ok tt, put_permissions role_id ids db)
        (part_eq db (put_permissions role_id ids db) refl (λ k. refl)
          (select-map_none (is_system_grant db.roles.rows)
              (λ id. record { role_id = role_id; permission_id = id }) ids _
              (λ id.
                grant_apart (record { role_id = role_id; permission_id = id }) (==_refl role_id))
            ∙ select-delete_apart _ _ db.role_permissions.rows grants-IsApart)
          refl)

-- The calls that change roles.
pub data RoleCall : Type 0 where
  creates : RoleCreate → RoleCall
  updates : ℕ → RoleUpdate → RoleCall
  deletes : ℕ → RoleCall
  sets : ℕ → List String → RoleCall

module _ (ext : External) (settings : Settings) where
  -- The database after a call, whether it returned or failed.
  abbrev pub after : Time → String → RoleCall → Database → Database
  after now token (creates req) db = (create_role ext settings now token req db).1
  after now token (updates role_id req) db = (update_role ext settings now token role_id req db).1
  after now token (deletes role_id) db = (delete_role ext settings now token role_id db).1
  after now token (sets role_id codenames) db =
      (set_role_permissions ext settings now token role_id codenames db).1

  add_role-IsKept :
      (req : RoleCreate) (now : Time) (db : Database)
      → IsKept db (add_role (new_role ext settings req now) db)
  unfolding add_role any select
  add_role-IsKept req now db =
      IsKept-if db _ _
        (
          ok (new_role ext settings req now db.roles.next_id),
          record db { roles = insert_row (new_role ext settings req now) db.roles },
        )
        refl

  create-IsKept :
      (now : Time) (token : String) (req : RoleCreate) (db : Database)
      → IsKept db (create_role ext settings now token req db)
  unfolding create_role log_audit
  create-IsKept now token req db =
      read-cases (IsKept db) (require_permission ext settings "roles:create" now token) _ db
        (require_permission-state ext settings "roles:create" now token) (λ e. refl)
        λ admin h.
          read-cases (IsKept db) (one_where (λ d. d.roles) _) _ db (one_where-IsReader _ _)
            (λ e. refl)
            λ existing g.
              guard-cases {B = RoleResponse} (IsKept db) (not (is_some existing)) _ _ db refl
                λ fresh.
                  let kept = add_role-IsKept req now db in
                  bind-cases (IsKept db) (add_role (new_role ext settings req now)) _ db
                    (λ e f. kept) (λ role f. kept)

  -- A handler that looks for a role by its key, after the guard of its route.
  found-IsKept :
      {A : Type 0} (codename : String) (now : Time) (token : String) (role_id : ℕ)
      (missing : Exec Database A) (rest : User → DbRole → Exec Database A) (db : Database)
      → IsKept db (missing db)
      → ((admin : User) (role : DbRole)
          → select (λ (r : DbRole). r.id == role_id) db.roles.rows ≡ role ∷ []
          → IsKept db (rest admin role db))
      → IsKept db (
          (require_permission ext settings codename now token >>= λ admin.
          find_role role_id >>= λ found. found_or missing found (rest admin))
            db)
  unfolding find_role one_where
  found-IsKept codename now token role_id missing rest db absent present =
      read-cases (IsKept db) (require_permission ext settings codename now token) _ db
        (require_permission-state ext settings codename now token) (λ e. refl)
        λ admin h.
          read-cases (IsKept db) (find_role role_id) _ db (λ d. refl) (λ e. refl)
            λ found g.
              found-cases (IsKept db) missing found (rest admin) db absent
                λ role e. present admin role (scalar_one_or_none-some _ role (g ∙ ap ok e))

  same_key_lem :
      (db : Database) (role_id : ℕ) (role : DbRole)
      → select (λ (r : DbRole). r.id == role_id) db.roles.rows ≡ role ∷ []
      → role.id ≡ role_id
  same_key_lem db role_id role found =
      let e = select-head (λ (r : DbRole). r.id == role_id) db.roles.rows role [] found in
      ground arith

  update-IsKept :
      (now : Time) (token : String) (role_id : ℕ) (req : RoleUpdate) (db : Database)
      → IsKept db (update_role ext settings now token role_id req db)
  unfolding update_role log_audit apply_role_update
  update-IsKept now token role_id req db =
      found-IsKept "roles:update" now token role_id _ _ db refl λ admin role found.
        guard-cases (IsKept db) (not role.is_system) _ _ db refl λ custom.
          let kept =
            save_role-IsKept db role_id role found (ground arith) (apply_role_update req role)
              (same_key_lem db role_id role found) (ground arith) in
          bind-cases (IsKept db) (save_role (apply_role_update req role)) _ db (λ e f. kept)
            (λ saved f. kept)

  delete-IsKept :
      (now : Time) (token : String) (role_id : ℕ) (db : Database)
      → IsKept db (delete_role ext settings now token role_id db)
  unfolding delete_role log_audit
  delete-IsKept now token role_id db =
      found-IsKept "roles:delete" now token role_id _ _ db refl λ admin role found.
        guard-cases (IsKept db) (not role.is_system) _ _ db refl
          λ custom. drop_role-kept db role_id role found (ground arith)

  set-IsKept :
      (now : Time) (token : String) (role_id : ℕ) (codenames : List String) (db : Database)
      → IsKept db (set_role_permissions ext settings now token role_id codenames db)
  unfolding set_role_permissions log_audit
  set-IsKept now token role_id codenames db =
      found-IsKept "roles:update" now token role_id _ _ db refl λ admin role found.
        guard-cases (IsKept db) (not role.is_system) _ _ db refl λ custom.
          lift-cases (IsKept db) (permission_ids db.permissions.rows codenames) _ db (λ e. refl)
            λ ids h.
              let kept = replace_permissions-IsKept db role_id role found (ground arith) ids in
              bind-cases (IsKept db) (replace_permissions role_id ids) _ db (λ e f. kept)
                (λ done f. kept)

  -- No call that changes roles, by whomever it is made and whether it returns or fails, changes a
  -- system role, what a system role is given, or a permission.
  pub after-system :
      (now : Time) (token : String) (call : RoleCall) (db : Database)
      → system_part (after now token call db) ≡ system_part db
  after-system now token (creates req) db = create-IsKept now token req db
  after-system now token (updates role_id req) db = update-IsKept now token role_id req db
  after-system now token (deletes role_id) db = delete-IsKept now token role_id db
  after-system now token (sets role_id codenames) db = set-IsKept now token role_id codenames db
