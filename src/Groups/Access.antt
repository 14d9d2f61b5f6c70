-- ===== src/Groups/Access.antt =====
-- What groups and their roles mean for access.
use accelerator_pack_auth_se.Prelude.{
  ℕ, String, List, ◌≡◌, refl, Bool, true, false, Option, Error, Result, ok, err, if◌then◌else◌,
}
use accelerator_pack_auth_se.Exec.{Exec, ◌>>=◌}
use accelerator_pack_auth_se.Exec.Cases.{read-cases, bind-cases, found-cases, lift-cases}
use accelerator_pack_auth_se.Models.{Time}
use accelerator_pack_auth_se.Models.Rows.{User}
use accelerator_pack_auth_se.Models.Database.{Database}
use accelerator_pack_auth_se.External.{External, JsonCodec}
use accelerator_pack_auth_se.Config.{Settings}
use accelerator_pack_auth_se.PackModels.{PackAuthModel}
use accelerator_pack_auth_se.Scopes.{
  assigned_permissions, fetch_user_role_permissions, resolve_effective_user_scopes,
}
use accelerator_pack_auth_se.Permissions.{
  role_rows, system_rows, grant_rows, ownership_rows, check_permission,
}
use accelerator_pack_auth_se.Audit.{log_audit}
use accelerator_pack_auth_se.Queries.{one_where, one_where-IsReader}
use accelerator_pack_auth_se.Tokens.{require_admin}
use accelerator_pack_auth_se.Tokens.Guards.{require_admin-state}
use accelerator_pack_auth_se.Groups.{
  GroupCreate, required, add_group, add_membership, is_member, drop_membership, put_membership,
  put_group_roles, replace_group_roles, create_group, add_group_member, remove_group_member,
  set_group_roles,
}

-- The calls that change groups.
pub data GroupCall : Type 0 where
  creates : GroupCreate → GroupCall
  adds : ℕ → Option ℕ → GroupCall
  removes : ℕ → ℕ → GroupCall
  sets : ℕ → List ℕ → GroupCall

-- Every permission check has the same answer, and every user's token the same scopes.
abbrev pub HasSameAccess : Database → Database → Type 0
HasSameAccess db db' =
    ((user : User) (codename : String) (resource_type resource_id : Option String)
      → check_permission db' user codename resource_type resource_id
        ≡ check_permission db user codename resource_type resource_id)
    × ((json : JsonCodec) (user : User) (pack : PackAuthModel)
        → resolve_effective_user_scopes json db' user pack
          ≡ resolve_effective_user_scopes json db user pack)

abbrev Leaves : {A : Type 0} → Database → Result A × Database → Type 0
Leaves db (r, db') = HasSameAccess db db'

unchanged : (db : Database) → HasSameAccess db db
unchanged db = (λ u c t i. refl, λ j u p. refl)

Leaves-if :
    {A : Type 0} (db : Database) (b : Bool) (e : Error) (changed : Result A × Database)
    → Leaves db changed
    → Leaves db (if b then (err e, db) else changed)
Leaves-if db true e changed h = unchanged db
Leaves-if db false e changed h = h

add_membership-Leaves :
    (group_id user_id : ℕ) (db : Database) → Leaves db (add_membership group_id user_id db)
unfolding add_membership check_permission resolve_effective_user_scopes role_rows system_rows
    grant_rows ownership_rows assigned_permissions fetch_user_role_permissions
add_membership-Leaves group_id user_id db =
    Leaves-if db _ _ (ok tt, put_membership group_id user_id db) (λ u c t i. refl, λ j u p. refl)

replace_group_roles-Leaves :
    (group_id : ℕ) (role_ids : List ℕ) (db : Database)
    → Leaves db (replace_group_roles group_id role_ids db)
unfolding replace_group_roles check_permission resolve_effective_user_scopes role_rows system_rows
    grant_rows ownership_rows assigned_permissions fetch_user_role_permissions
replace_group_roles-Leaves group_id role_ids db =
    Leaves-if db _ _ (ok tt, put_group_roles group_id role_ids db) (λ u c t i. refl, λ j u p. refl)

module _ (ext : External) (settings : Settings) where
  -- The database after a call, whether it returned or failed.
  abbrev pub after : Time → String → GroupCall → Database → Database
  after now token (creates req) db = (create_group ext settings now token req db).1
  after now token (adds group_id user_id) db =
      (add_group_member ext settings now token group_id user_id db).1
  after now token (removes group_id user_id) db =
      (remove_group_member ext settings now token group_id user_id db).1
  after now token (sets group_id role_ids) db =
      (set_group_roles ext settings now token group_id role_ids db).1

  -- A guard that only reads, and a call that keeps the tables that decide on access.
  guarded :
      {A : Type 0} (now : Time) (token : String) (rest : User → Exec Database A) (db : Database)
      → ((admin : User) → Leaves db (rest admin db))
      → Leaves db ((require_admin ext settings now token >>= rest) db)
  guarded now token rest db kept =
      read-cases (Leaves db) (require_admin ext settings now token) rest db
        (require_admin-state ext settings now token) (λ e. unchanged db) λ admin h. kept admin

  -- No call that changes groups, their members or their roles changes what anyone is permitted: a
  -- member of a group has no permission and no scope by the group's roles.
  pub after-access :
      (now : Time) (token : String) (call : GroupCall) (db : Database)
      → HasSameAccess db (after now token call db)
  unfolding create_group add_group_member remove_group_member set_group_roles add_group
      drop_membership log_audit check_permission resolve_effective_user_scopes role_rows system_rows
      grant_rows ownership_rows assigned_permissions fetch_user_role_permissions
  after-access now token (creates req) db = guarded now token _ db λ admin.
      lift-cases (Leaves db) (required "name" req.name) _ db (λ e. unchanged db)
        λ name g. (λ u c t i. refl, λ j u p. refl)
  after-access now token (adds group_id body_user_id) db = guarded now token _ db λ admin.
      lift-cases (Leaves db) (required "user_id" body_user_id) _ db (λ e. unchanged db)
        λ user_id g.
          bind-cases (Leaves db) (add_membership group_id user_id) _ db
            (λ e f. add_membership-Leaves group_id user_id db)
            (λ done f. add_membership-Leaves group_id user_id db)
  after-access now token (removes group_id user_id) db = guarded now token _ db λ admin.
      read-cases (Leaves db) (one_where (λ d. d.group_memberships) (is_member group_id user_id)) _
        db (one_where-IsReader _ _) (λ e. unchanged db)
        λ found g.
          found-cases {B = Unit} (Leaves db) _ found _ db (unchanged db)
            λ membership e. (λ u c t i. refl, λ j u p. refl)
  after-access now token (sets group_id role_ids) db = guarded now token _ db λ admin.
      bind-cases (Leaves db) (replace_group_roles group_id role_ids) _ db
        (λ e f. replace_group_roles-Leaves group_id role_ids db)
        (λ done f. replace_group_roles-Leaves group_id role_ids db)
