-- ===== src/Scopes.antt =====
-- scopes.py: the scopes that a principal may hold, and those that a token is granted.
pub mod Granting
pub mod Effective
mod Tests
use accelerator_pack_auth_se.Prelude.{
  ℕ, String, List, [], ◌∷◌, ◌++◌, Bool, true, false, not, ◌&&◌, Option, none, some, map, ◌==◌,
  str_eq, contains, select, dedup, difference, sorted, is_empty, flat_map, if◌then◌else◌,
}
use Prim.Native.String as Text
use accelerator_pack_auth_se.External.{JsonCodec, Decoded, items, not_a_list}
use accelerator_pack_auth_se.Table.{Table}
use accelerator_pack_auth_se.Models.{role_value}
use accelerator_pack_auth_se.Models.Rows.{
  User, ServiceAccount, Permission, RolePermission, DbRole, UserRole,
}
use accelerator_pack_auth_se.Models.Database.{Database}
use accelerator_pack_auth_se.PackModels.{PackAuthModel, permissions_for_role}
use accelerator_pack_auth_se.ScopeString.{join, text_or_empty}

abbrev pub scope_wildcard : String
scope_wildcard = "*"

-- What a granting call returns, or the message of its `InvalidScopeError`.
pub data Grant : Type 0 where
  granted : List String → Grant
  invalid_scope : String → Grant

pub missing_message : List String → String
missing_message missing = Text.◌++◌ "requested scopes not allowed: " (join (sorted missing))

unfoldable pub grant_scopes : List String → List String → Bool → Grant
unfolding missing_message
grant_scopes allowed requested strict =
    if is_empty requested
    then granted allowed
    else let missing = difference requested allowed in
      let overlap = select (contains requested) allowed in
      if strict && not (is_empty missing)
      then invalid_scope (missing_message missing)
      else if is_empty overlap
      then invalid_scope (missing_message missing)
      else granted overlap

module _ (json : JsonCodec) where
  unfoldable pub decoded_list : Option Decoded → List String
  decoded_list none = []
  decoded_list (some (items xs)) = xs
  decoded_list (some not_a_list) = []

  unfoldable pub serialize_scopes : List String → String
  serialize_scopes scopes = json.dumps scopes

  unfoldable pub deserialize_scopes : Option String → List String
  unfolding decoded_list
  deserialize_scopes raw =
      let text = text_or_empty raw in if str_eq text "" then [] else decoded_list (json.loads text)

  -- `resolve_principal_scopes` of a service account.
  unfoldable pub resolve_account_scopes : ServiceAccount → PackAuthModel → List String
  resolve_account_scopes account pack =
      let stamped = deserialize_scopes (some account.scopes) in
      if contains stamped scope_wildcard then pack.permissions else stamped

  -- `resolve_principal_scopes` of a user.
  unfoldable pub resolve_user_scopes : User → PackAuthModel → List String
  resolve_user_scopes user pack =
      if not (str_eq (text_or_empty user.allowed_scopes) "")
      then (let decoded = deserialize_scopes user.allowed_scopes in
          if contains decoded scope_wildcard
          then permissions_for_role pack (role_value user.role)
          else decoded)
      else permissions_for_role pack (role_value user.role)

-- The rows of the join UserRole, DbRole, RolePermission, Permission for one user: a permission as
-- often as the user's assignments reach it.
unfoldable pub assigned_permissions : Database → ℕ → List Permission
assigned_permissions db user_id =
    flat_map
      (λ p.
        flat_map
          (λ rp.
            flat_map
              (λ r.
                map (λ ur. p)
                  (select (λ ur. ur.role_id == r.id && ur.user_id == user_id) db.user_roles.rows))
              (select (λ r. r.id == rp.role_id) db.roles.rows))
          (select (λ rp. rp.permission_id == p.id) db.role_permissions.rows))
      db.permissions.rows

unfoldable pub fetch_user_role_permissions : Database → ℕ → List String
fetch_user_role_permissions db user_id =
    dedup (map (λ p. p.codename) (assigned_permissions db user_id))

-- The scopes of the role, and after them those that only assigned roles give, sorted.
unfoldable pub add_extras : List String → List String → List String
add_extras base extra =
    if is_empty extra
    then base
    else let new_extras = sorted (difference extra base) in
      if is_empty new_extras then base else base ++ new_extras

unfoldable pub resolve_effective_user_scopes :
    JsonCodec → Database → User → PackAuthModel → List String
unfolding add_extras
resolve_effective_user_scopes json db user pack =
    let base = resolve_user_scopes json user pack in
    if not (str_eq (text_or_empty user.allowed_scopes) "")
    then base
    else add_extras base (fetch_user_role_permissions db user.id)
