-- ===== src/Users.antt =====
-- The handlers of main.py that list the users and change one; only an administrator may call them.
pub mod Audited
pub mod Deactivated
mod Tests
use accelerator_pack_auth_se.Prelude.{
  ℕ, String, List, [], ◌∷◌, ◌++◌, Bool, true, false, Option, none, some, ◌==◌, map, is_empty,
  if◌then◌else◌,
}
use accelerator_pack_auth_se.Exec.{Exec, found_or, pure, raise, gets, modify, ◌>>=◌, ◌>>◌}
use accelerator_pack_auth_se.Table.{Table, update_where, order_desc}
use accelerator_pack_auth_se.Models.{Time, Role, role_value}
use accelerator_pack_auth_se.Models.Rows.{User}
use accelerator_pack_auth_se.Models.Database.{Database}
use accelerator_pack_auth_se.External.{External}
use accelerator_pack_auth_se.Config.{Settings}
use accelerator_pack_auth_se.Tokens.{get_current_user, require_admin, find_user}
use accelerator_pack_auth_se.Admin.{audit_as}
use accelerator_pack_auth_se.Roles.{user_not_found, or_keep}
use accelerator_pack_auth_se.Assignments.{user_target}
use Prim.Native.String as Text

pub record UpdateUserRequest : Type 0 where
  pub role : Option Role
  pub is_active : Option Bool
  pub name : Option String

pub record UserResponse : Type 0 where
  pub id : ℕ
  pub email : String
  pub name : String
  pub role : Role
  pub is_active : Bool
  pub created_at : Time

unfoldable pub user_response : User → UserResponse
user_response u = record {
  id = u.id;
  email = u.email;
  name = u.name;
  role = u.role;
  is_active = u.is_active;
  created_at = u.created_at;
}

abbrev pub show_bool : Bool → String
show_bool true = "True"
show_bool false = "False"

abbrev pub change : String → String → String → String
change field old new = Text.◌++◌ field (Text.◌++◌ old (Text.◌++◌ " -> " new))

unfoldable pub role_change : User → Option Role → List String
role_change user none = []
role_change user (some role) = change "role: " (role_value user.role) (role_value role) ∷ []

unfoldable pub active_change : User → Option Bool → List String
active_change user none = []
active_change user (some b) = change "active: " (show_bool user.is_active) (show_bool b) ∷ []

-- The list `changes` of the handler: a new name is not in it.
unfoldable pub changes : User → UpdateUserRequest → List String
unfolding role_change active_change
changes user req = role_change user req.role ++ active_change user req.is_active

-- `', '.join(changes)`
unfoldable pub join_changes : List String → String
join_changes [] = ""
join_changes (s ∷ []) = s
join_changes (s ∷ t ∷ rest) = Text.◌++◌ s (Text.◌++◌ ", " (join_changes (t ∷ rest)))

unfoldable pub apply_user_update : UpdateUserRequest → User → User
apply_user_update req user = record user {
  role = or_keep req.role user.role;
  is_active = or_keep req.is_active user.is_active;
  name = or_keep req.name user.name;
}

-- The commit of a changed user.
unfoldable pub save_user : User → Database → Database
save_user user db = record db {
  users = record (db.users) {
    rows = update_where (λ u. u.id == user.id) (λ u. user) db.users.rows;
  };
}

module _ (ext : External) (settings : Settings) where
  unfoldable pub get_me : Time → String → Exec Database UserResponse
  get_me now token = do user ← get_current_user ext settings now token; pure (user_response user)

  unfoldable pub list_users : Time → String → Exec Database (List UserResponse)
  list_users now token = do
    admin ← require_admin ext settings now token
    gets (λ db. map user_response (order_desc (λ u. u.created_at) db.users.rows))

  -- `if changes: await log_audit(…)`
  unfoldable pub audit_changes : Time → User → ℕ → List String → Exec Database Unit
  audit_changes now admin user_id made =
      if is_empty made
      then pure tt
      else audit_as admin "update_user" (user_target user_id (Text.◌++◌ " " (join_changes made)))
          now

  unfoldable pub update_user : Time → String → ℕ → UpdateUserRequest → Exec Database UserResponse
  update_user now token user_id req = do
    admin ← require_admin ext settings now token
    found ← find_user user_id
    found_or (raise user_not_found) found λ user. do
      modify (save_user (apply_user_update req user))
      audit_changes now admin user_id (changes user req)
      pure (user_response (apply_user_update req user))
