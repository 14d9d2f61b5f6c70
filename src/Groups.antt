-- ===== src/Groups.antt =====
-- The handlers of main.py for groups, their members and their roles; only an administrator may call
-- them. A request body is taken with values of the types that the columns have.
pub mod Access
mod Tests
use accelerator_pack_auth_se.Prelude.{
  ℕ, String, List, [], ◌∷◌, ◌++◌, Bool, true, false, not, ◌&&◌, ◌||◌, Option, none, some, Result,
  ok, err, Error, http, integrity_error, key_error, ◌==◌, any, all, select, map, flat_map,
  if◌then◌else◌,
}
use accelerator_pack_auth_se.Exec.{
  Exec, found_or, pure, raise, lift, gets, modify, guard, ◌>>=◌, ◌>>◌,
}
use accelerator_pack_auth_se.Table.{Table, insert_row, delete_where}
use accelerator_pack_auth_se.Models.{Time, GroupSource, local, source_value}
use accelerator_pack_auth_se.Models.Rows.{User}
use accelerator_pack_auth_se.Models.Federation.{Group, GroupMembership, GroupRole}
use accelerator_pack_auth_se.Models.Database.{Database}
use accelerator_pack_auth_se.External.{External}
use accelerator_pack_auth_se.Config.{Settings}
use accelerator_pack_auth_se.Decimal.{str}
use accelerator_pack_auth_se.Queries.{one_where, order_text, refers}
use accelerator_pack_auth_se.Clients.{Patch, unset, set_to, patched}
use accelerator_pack_auth_se.Tokens.{require_admin}
use accelerator_pack_auth_se.Admin.{audit_as}
use accelerator_pack_auth_se.Roles.{repeats_key}
use accelerator_pack_auth_se.Users.{UserResponse, user_response}
use Prim.Native.String as Text

-- A missing key is `none`, for `display_name` it is `unset`.
pub record GroupCreate : Type 0 where
  pub name : Option String
  pub display_name : Patch String
  pub description : Option String

pub record GroupView : Type 0 where
  pub id : ℕ
  pub name : String
  pub display_name : Option String
  pub source : String
  pub external_id : Option String

abbrev pub group_view : Group → GroupView
group_view g = record {
  id = g.id;
  name = g.name;
  display_name = g.display_name;
  source = source_value g.source;
  external_id = g.external_id;
}

pub record GroupCreated : Type 0 where
  pub id : ℕ
  pub name : String
  pub display_name : Option String

-- `body[key]`
abbrev pub required : {A : Type 0} → String → Option A → Result A
required key none = err (key_error key)
required key (some a) = ok a

abbrev pub new_group : String → GroupCreate → Time → ℕ → Group
new_group name req now id = record {
  id = id;
  tenant_id = none;
  name = name;
  display_name = patched req.display_name (some name);
  description = req.description;
  external_id = none;
  source = local;
  created_at = now;
  updated_at = none;
}

unfoldable pub add_group : (ℕ → Group) → Exec Database Group
add_group row db = (ok (row db.groups.next_id), record db { groups = insert_row row db.groups })

unfoldable pub is_member : ℕ → ℕ → GroupMembership → Bool
is_member group_id user_id m = m.group_id == group_id && m.user_id == user_id

abbrev pub put_membership : ℕ → ℕ → Database → Database
put_membership group_id user_id db = record db {
  group_memberships = record (db.group_memberships) {
    rows = record { group_id = group_id; user_id = user_id } ∷ db.group_memberships.rows;
  };
}

-- The commit of a membership: the pair is the primary key, and both columns are foreign keys.
unfoldable pub add_membership : ℕ → ℕ → Exec Database Unit
add_membership group_id user_id db =
    if any (is_member group_id user_id) db.group_memberships.rows
      || not (refers (λ g. g.id) db.groups.rows (some group_id))
      || not (refers (λ u. u.id) db.users.rows (some user_id))
    then (err integrity_error, db)
    else (ok tt, put_membership group_id user_id db)

unfoldable pub drop_membership : ℕ → ℕ → Database → Database
drop_membership group_id user_id db = record db {
  group_memberships = record (db.group_memberships) {
    rows = delete_where (is_member group_id user_id) db.group_memberships.rows;
  };
}

abbrev pub put_group_roles : ℕ → List ℕ → Database → Database
put_group_roles group_id role_ids db = record db {
  group_roles = record (db.group_roles) {
    rows =
        map (λ rid. record { group_id = group_id; role_id = rid; tenant_id = none }) role_ids
        ++ delete_where (λ gr. gr.group_id == group_id) db.group_roles.rows;
  };
}

-- The roles of the group are replaced in one transaction; a repeated role, an unknown one or an
-- unknown group violates a key of a row that is added.
unfoldable pub replace_group_roles : ℕ → List ℕ → Exec Database Unit
replace_group_roles group_id role_ids db =
    if repeats_key role_ids
      || not (
          all
            (λ rid.
              refers (λ r. r.id) db.roles.rows (some rid)
              && refers (λ g. g.id) db.groups.rows (some group_id))
            role_ids)
    then (err integrity_error, db)
    else (ok tt, put_group_roles group_id role_ids db)

abbrev pub group_target : ℕ → String → String
group_target group_id rest = Text.◌++◌ "group=" (Text.◌++◌ (str group_id) rest)

module _ (ext : External) (settings : Settings) where
  unfoldable pub list_groups : Time → String → Exec Database (List GroupView)
  list_groups now token = do
    admin ← require_admin ext settings now token
    gets (λ db. map group_view (order_text (λ g. g.name) db.groups.rows))

  unfoldable pub create_group : Time → String → GroupCreate → Exec Database GroupCreated
  create_group now token req = do
    admin ← require_admin ext settings now token
    name ← lift (required "name" req.name)
    group ← add_group (new_group name req now)
    audit_as admin "create_group" (Text.◌++◌ "group=" group.name) now
    pure (record { id = group.id; name = group.name; display_name = group.display_name })

  unfoldable pub list_group_members : Time → String → ℕ → Exec Database (List UserResponse)
  list_group_members now token group_id = do
    admin ← require_admin ext settings now token
    gets (λ db.
        flat_map
          (λ u.
            map (λ m. user_response u) (select (is_member group_id u.id) db.group_memberships.rows))
          db.users.rows)

  unfoldable pub add_group_member : Time → String → ℕ → Option ℕ → Exec Database (ℕ × ℕ)
  add_group_member now token group_id body_user_id = do
    admin ← require_admin ext settings now token
    user_id ← lift (required "user_id" body_user_id)
    add_membership group_id user_id
    audit_as admin "add_group_member" (group_target group_id (Text.◌++◌ " user=" (str user_id))) now
    pure (group_id, user_id)

  unfoldable pub remove_group_member : Time → String → ℕ → ℕ → Exec Database Unit
  remove_group_member now token group_id user_id = do
    admin ← require_admin ext settings now token
    found ← one_where (λ db. db.group_memberships) (is_member group_id user_id)
    found_or (raise (http 404 "Membership not found")) found
        λ membership. modify (drop_membership group_id user_id)

  unfoldable pub set_group_roles : Time → String → ℕ → List ℕ → Exec Database (ℕ × List ℕ)
  set_group_roles now token group_id role_ids = do
    admin ← require_admin ext settings now token
    replace_group_roles group_id role_ids
    audit_as admin "set_group_roles" (group_target group_id "") now
    pure (group_id, role_ids)
