-- ===== src/Scim.antt =====
-- SCIM provisioning, scim_service.py: the bearer token, the resources, and what the requests change.
-- A body is taken with values of the types that the columns have; a key that it lacks is `none`, or
-- `unset` where null is a value. The SCIM token of the settings is taken to be ASCII.
pub mod Handlers
pub mod Refused
pub mod Deprovisioned
pub mod Partial
mod Tests
use accelerator_pack_auth_se.Prelude.{
  ℕ, String, List, [], ◌∷◌, Bool, true, false, not, Option, none, some, Result, ok, err, http,
  value_error, ◌==◌, str_eq, map, is_some, if◌then◌else◌,
}
use accelerator_pack_auth_se.Prelude as Result
use accelerator_pack_auth_se.Exec.{Exec, pure, lift, modify, guard, ◌>>=◌, ◌>>◌}
use accelerator_pack_auth_se.Table.{Table, update_where}
use accelerator_pack_auth_se.Models.{Time, Role, scim}
use accelerator_pack_auth_se.Models.Rows.{User}
use accelerator_pack_auth_se.Models.Federation.{Group}
use accelerator_pack_auth_se.Models.Database.{Database}
use accelerator_pack_auth_se.External.{External}
use accelerator_pack_auth_se.Config.{Settings}
use accelerator_pack_auth_se.Decimal.{str, int}
use accelerator_pack_auth_se.Queries.{transaction}
use accelerator_pack_auth_se.Clients.{Patch, patched}
use accelerator_pack_auth_se.Accounts.{find_email, add_user}
use accelerator_pack_auth_se.Users.{save_user}
use accelerator_pack_auth_se.Roles.{or_keep}
use accelerator_pack_auth_se.Groups.{required, add_group, add_membership}

-- `name` is the `name` object with its `formatted`.
pub record ScimUserData : Type 0 where
  pub user_name : Option String
  pub display_name : Option String
  pub name : Option (Option String)
  pub active : Option Bool

-- `members` is the `value` of each member.
pub record ScimGroupData : Type 0 where
  pub display_name : Option String
  pub external_id : Patch String
  pub members : Option (List (Option String))

pub record ScimUser : Type 0 where
  pub schemas : List String
  pub id : String
  pub user_name : String
  pub formatted : String
  pub email : String
  pub display_name : String
  pub active : Bool
  pub resource_type : String
  pub created : Time

pub record ScimGroup : Type 0 where
  pub schemas : List String
  pub id : String
  pub display_name : String
  pub external_id : Option String
  pub resource_type : String
  pub created : Time

unfoldable pub user_to_scim : User → ScimUser
user_to_scim user = record {
  schemas = "urn:ietf:params:scim:schemas:core:2.0:User" ∷ [];
  id = str user.id;
  user_name = user.email;
  formatted = user.name;
  email = user.email;
  display_name = user.name;
  active = user.is_active;
  resource_type = "User";
  created = user.created_at;
}

-- `a or b` of a text that may be missing.
abbrev pub or_text : Option String → String → String
or_text none b = b
or_text (some a) b = if str_eq a "" then b else a

-- No caller passes the members.
unfoldable pub group_to_scim : Group → ScimGroup
group_to_scim group = record {
  schemas = "urn:ietf:params:scim:schemas:core:2.0:Group" ∷ [];
  id = str group.id;
  display_name = or_text group.display_name group.name;
  external_id = group.external_id;
  resource_type = "Group";
  created = group.created_at;
}

-- `hmac.compare_digest` is the equality of the two texts.
unfoldable pub require_scim_auth : External → Settings → String → Exec Database String
require_scim_auth ext settings credentials = do
  guard settings.scim_enabled (http 403 "SCIM is not enabled")
  guard (not (str_eq settings.scim_token "")) (http 503 "SCIM token not configured")
  guard (str_eq (ext.sha256 credentials) settings.scim_token) (http 401 "Invalid SCIM token")
  pure credentials

-- `data.get("name", {}).get("formatted", "SCIM User")`
abbrev pub formatted_name : Option (Option String) → String
formatted_name (some (some formatted)) = formatted
formatted_name _ = "SCIM User"

abbrev pub scim_user : ScimUserData → Time → ℕ → User
scim_user body now id = record {
  id = id;
  email = or_keep body.user_name "";
  name = or_text body.display_name (formatted_name body.name);
  password_hash = "!scim-provisioned";
  role = Role.user;
  is_active = or_keep body.active true;
  created_at = now;
  allowed_scopes = none;
}

unfoldable pub scim_create_user : Time → ScimUserData → Exec Database User
scim_create_user now body = do
  existing ← find_email (or_keep body.user_name "")
  guard (not (is_some existing)) (http 409 "User already exists")
  add_user (scim_user body now)

-- `displayName` where it is given, else the `formatted` of `name`, else the name as it was.
abbrev pub new_name : ScimUserData → String → String
new_name body old = or_keep body.display_name (formatted_or body.name old)
  where
    formatted_or : Option (Option String) → String → String
    formatted_or (some (some formatted)) old = formatted
    formatted_or _ old = old

unfoldable pub apply_scim_user : ScimUserData → User → User
apply_scim_user body user = record user {
  name = new_name body user.name;
  is_active = or_keep body.active user.is_active;
}

unfoldable pub scim_update_user : User → ScimUserData → Exec Database User
scim_update_user user body = do
  modify (save_user (apply_scim_user body user))
  pure (apply_scim_user body user)

abbrev pub scim_group : ScimGroupData → Time → ℕ → Group
scim_group body now id = record {
  id = id;
  tenant_id = none;
  name = or_keep body.display_name "";
  display_name = some (or_keep body.display_name "");
  description = none;
  external_id = patched body.external_id none;
  source = scim;
  created_at = now;
  updated_at = none;
}

-- `int(member_data["value"])`
abbrev pub member_id : Option String → Result ℕ
member_id member = Result.◌>>=◌ (required "value" member) λ value. integer (int value)
  where
    integer : Option ℕ → Result ℕ
    integer none = err (value_error "int")
    integer (some n) = ok n

unfoldable pub member_ids : List (Option String) → Result (List ℕ)
member_ids [] = ok []
member_ids (member ∷ members) =
    let rest = member_ids members in
    Result.◌>>=◌ (member_id member) λ id. Result.◌>>=◌ rest λ ids. ok (id ∷ ids)

unfoldable pub add_memberships : ℕ → List ℕ → Exec Database Unit
add_memberships group_id [] = pure tt
add_memberships group_id (user_id ∷ user_ids) =
    add_membership group_id user_id >> add_memberships group_id user_ids

abbrev pub listed : Option (List (Option String)) → List (Option String)
listed none = []
listed (some members) = members

-- The members are added in a transaction of their own.
unfoldable pub add_members : ℕ → Option (List (Option String)) → Exec Database Unit
add_members group_id members = do
  ids ← lift (member_ids (listed members))
  transaction (add_memberships group_id ids)

-- The group is committed before the members are read.
unfoldable pub scim_create_group : Time → ScimGroupData → Exec Database Group
scim_create_group now body = do
  group ← add_group (scim_group body now)
  add_members group.id body.members
  pure group

abbrev pub apply_scim_group : ScimGroupData → Time → Group → Group
apply_scim_group body now group = record group {
  name = or_keep body.display_name group.name;
  display_name = shown body.display_name;
  external_id = patched body.external_id group.external_id;
  updated_at = some now;
}
  where
    shown : Option String → Option String
    shown none = group.display_name
    shown (some name) = some name

unfoldable pub save_group : Group → Database → Database
save_group group db = record db {
  groups = record (db.groups) {
    rows = update_where (λ g. g.id == group.id) (λ g. group) db.groups.rows;
  };
}

unfoldable pub scim_update_group : Time → Group → ScimGroupData → Exec Database Group
scim_update_group now group body = do
  modify (save_group (apply_scim_group body now group))
  pure (apply_scim_group body now group)
