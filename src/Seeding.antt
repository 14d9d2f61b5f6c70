-- ===== src/Seeding.antt =====
-- `seed_roles_and_permissions` of permission_service.py: the permissions and roles of the active pack
-- are put into the database at start-up, those that are there being left.
pub mod Ensure
pub mod EachRole
pub mod Again
pub mod Granted
mod Tests
use accelerator_pack_auth_se.Prelude.{
  ℕ, String, List, [], ◌∷◌, Bool, true, false, ◌&&◌, Option, none, some, Result, ok, err, ◌==◌,
  str_eq, is_some, select, if◌then◌else◌,
}
use accelerator_pack_auth_se.Exec.{
  Exec, pure, lift, gets, modify, zoom, continue, found_or, ◌>>=◌, ◌>>◌,
}
use accelerator_pack_auth_se.Table.{Table, insert_row, scalar_one_or_none}
use accelerator_pack_auth_se.Models.{Time}
use accelerator_pack_auth_se.Models.Rows.{DbRole, Permission, RolePermission, SigningKey}
use accelerator_pack_auth_se.Models.Database.{Database}
use accelerator_pack_auth_se.PackModels.{PackAuthModel, permissions_for_role}
use accelerator_pack_auth_se.PackModels.Registry.{load_active_model}
use accelerator_pack_auth_se.Config.{Settings}
use accelerator_pack_auth_se.Keys.{FreshKey, get_active_signing_key}
use accelerator_pack_auth_se.Tokens.{on_keys}
use accelerator_pack_auth_se.StrMethods.{before, has_char}
use Prim.Native.String as Text

-- `PERMISSION_DESCRIPTIONS`: the description and the resource type.
abbrev pub permission_descriptions : List (String × (String × String))
permission_descriptions =
    ("users:list", ("List all users", "users"))
    ∷ ("users:read", ("Read user details", "users"))
    ∷ ("users:update", ("Update user details", "users"))
    ∷ ("users:delete", ("Deactivate a user", "users"))
    ∷ ("collections:read", ("Read collections", "collections"))
    ∷ ("collections:write", ("Upload to collections", "collections"))
    ∷ ("collections:manage", ("Manage collection permissions", "collections"))
    ∷ ("collections:delete", ("Delete collections", "collections"))
    ∷ ("roles:list", ("List roles", "roles"))
    ∷ ("roles:create", ("Create roles", "roles"))
    ∷ ("roles:read", ("Read role details", "roles"))
    ∷ ("roles:update", ("Update roles", "roles"))
    ∷ ("roles:delete", ("Delete roles", "roles"))
    ∷ ("permissions:list", ("List all permissions", "permissions"))
    ∷ ("permissions:check", ("Check permission for a user", "permissions"))
    ∷ ("cuopt.solve", ("Submit a routing solve request", "cuopt"))
    ∷ ("cuopt.view", ("View routing solutions", "cuopt"))
    ∷ ("chat.use", ("Use the GenAI chat assistant", "chat"))
    ∷ ("weather.view", ("View weather data for routes", "weather"))
    ∷ ("config.read", ("Read runtime configuration", "config"))
    ∷ ("admin.users.manage", ("Manage users", "admin"))
    ∷ ("admin.config.write", ("Write runtime configuration / API keys", "admin"))
    ∷ ("admin.features.toggle", ("Enable/disable optional features", "admin"))
    ∷ ("admin.audit.view", ("View the audit log", "admin"))
    ∷ []

-- `ROLE_DESCRIPTIONS`
abbrev pub role_descriptions : List (String × String)
role_descriptions =
    ("admin", "Full access to all resources")
    ∷ ("user", "Standard user")
    ∷ ("reader", "Read-only access")
    ∷ ("pending", "Awaiting admin approval — no access")
    ∷ []

-- The entry of a dictionary, or the default.
unfoldable pub entry_or : {A : Type 0} → List (String × A) → String → A → A
entry_or [] key default = default
entry_or ((k, v) ∷ entries) key default = if str_eq k key then v else entry_or entries key default

-- The resource type of a codename that is not described: what stands before its colon or its dot.
unfoldable pub resource_prefix : String → String
resource_prefix codename =
    if has_char b':' codename
    then before b':' codename
    else if has_char b'.' codename
    then before b'.' codename
    else codename

unfoldable pub permission_meta : String → String × String
unfolding entry_or resource_prefix
permission_meta codename =
    entry_or permission_descriptions codename
      (Text.◌++◌ "Permission " codename, resource_prefix codename)

unfoldable pub role_description : String → String
unfolding entry_or
role_description role_name = entry_or role_descriptions role_name (Text.◌++◌ "Role " role_name)

-- What has been committed, and what the session has written so far.
pub record Session : Type 0 where
  pub committed : Database
  pub current : Database

abbrev pub in_session : {A : Type 0} → Exec Database A → Exec Session A
in_session = zoom (λ s. s.current) (λ d s. record s { current = d })

abbrev pub commit : Exec Session Unit
commit = modify (λ s. record s { committed = s.current })

-- The row that passes the test, which is added where there is none.
unfoldable pub ensure : {A : Type 0} → (A → Bool) → (ℕ → A) → Exec (Table A) A
ensure test row t =
    let found = scalar_one_or_none (select test t.rows) in
    continue found (λ o. found_or (λ t'. (ok (row t'.next_id), insert_row row t')) o pure) t

abbrev pub on_permissions : {A : Type 0} → Exec (Table Permission) A → Exec Database A
on_permissions = zoom (λ d. d.permissions) (λ t d. record d { permissions = t })

abbrev pub on_roles : {A : Type 0} → Exec (Table DbRole) A → Exec Database A
on_roles = zoom (λ d. d.roles) (λ t d. record d { roles = t })

abbrev pub on_role_permissions : {A : Type 0} → Exec (Table RolePermission) A → Exec Database A
on_role_permissions = zoom (λ d. d.role_permissions) (λ t d. record d { role_permissions = t })

abbrev pub is_codename : String → Permission → Bool
is_codename codename p = str_eq p.codename codename

abbrev pub seeded_permission : String → ℕ → Permission
seeded_permission codename id = record {
  id = id;
  codename = codename;
  description = some ((permission_meta codename).0);
  resource_type = some ((permission_meta codename).1);
}

unfoldable pub seed_permissions : List String → Exec (Table Permission) Unit
seed_permissions [] = pure tt
seed_permissions (codename ∷ codenames) = do
  permission ← ensure (is_codename codename) (seeded_permission codename)
  seed_permissions codenames

abbrev pub is_system_named : String → DbRole → Bool
is_system_named name r = str_eq r.name name && r.is_system

abbrev pub seeded_role : String → Time → ℕ → DbRole
seeded_role name now id = record {
  id = id;
  tenant_id = none;
  name = name;
  description = some (role_description name);
  is_system = true;
  is_default = str_eq name "pending";
  created_at = now;
}

-- `all_perms.get(codename)`; codenames are unique.
unfoldable pub find_codename : List Permission → String → Option Permission
find_codename [] codename = none
find_codename (p ∷ ps) codename =
    if str_eq p.codename codename then some p else find_codename ps codename

abbrev pub is_grant : ℕ → ℕ → RolePermission → Bool
is_grant role_id permission_id rp = rp.role_id == role_id && rp.permission_id == permission_id

-- The loop over the codenames of one role; `all_perms` was read before.
unfoldable pub grant_codenames :
    List Permission → ℕ → List String → Exec (Table RolePermission) Unit
grant_codenames all_perms role_id [] = pure tt
grant_codenames all_perms role_id (codename ∷ codenames) =
    let rest = grant_codenames all_perms role_id codenames in
    found_or rest (find_codename all_perms codename) λ p.
      ensure (is_grant role_id p.id) (λ id. record { role_id = role_id; permission_id = p.id })
      >>= λ granted. rest

-- A new role is committed at once, a role that is there is not.
unfoldable pub seed_role : Time → String → Exec Session DbRole
seed_role now name s =
    let is_new = scalar_one_or_none (select (is_system_named name) s.current.roles.rows) in
    let (r, s') = in_session (on_roles (ensure (is_system_named name) (seeded_role name now))) s in
    (r, elim is_new [ ok none ↦ record s' { committed = s'.current } | _ ↦ s' ])

unfoldable pub seed_roles : PackAuthModel → List Permission → Time → List String → Exec Session Unit
seed_roles model all_perms now [] = pure tt
seed_roles model all_perms now (name ∷ names) = do
  role ← seed_role now name
  in_session
      (on_role_permissions (grant_codenames all_perms role.id (permissions_for_role model name)))
  seed_roles model all_perms now names

unfoldable pub seed_session : PackAuthModel → Time → Exec Session Unit
seed_session model now = do
  in_session (on_permissions (seed_permissions model.permissions))
  commit
  all_perms ← gets (λ s. s.current.permissions.rows)
  seed_roles model all_perms now model.roles
  commit

-- A session that fails leaves what it has committed.
unfoldable pub seed_roles_and_permissions : PackAuthModel → Time → Exec Database Unit
seed_roles_and_permissions model now db =
    let (r, s) = seed_session model now (record { committed = db; current = db }) in
    (r, elim r [ ok done ↦ s.current | err e ↦ s.committed ])

-- The start of the application, once the schema is up to date: the pack of the settings is seeded,
-- and a signing key is created if there is none.
unfoldable pub start_up : Settings → FreshKey → Time → Exec Database SigningKey
start_up settings fresh now = do
  seed_roles_and_permissions (load_active_model settings.pack) now
  on_keys (get_active_signing_key fresh now)
