-- ===== src/PackModels.antt =====
-- pack_models/base.py: the roles and permissions of a pack, their validation, and the expansion of
-- a role's permissions.
pub mod Registry
pub mod Declared
mod Tests
use accelerator_pack_auth_se.Prelude.{
  String, List, [], ◌∷◌, Bool, not, Result, ok, err, value_error, str_eq, contains, select,
  is_empty, if◌then◌else◌, ◌>>=◌, ◌>>◌,
}

abbrev pub permission_wildcard : String
permission_wildcard = "*"

-- `role_permissions` is a dictionary: its entries in the order of insertion.
pub record PackAuthModel : Type 0 where
  pub pack_id : String
  pub roles : List String
  pub permissions : List String
  pub role_permissions : List (String × List String)

unknown_roles : List String → List (String × List String) → Result (Unit {0})
unknown_roles roles [] = ok tt
unknown_roles roles ((role, perms) ∷ rest) =
    let later = unknown_roles roles rest in
    if contains roles role then later else err (value_error "role_permissions: unknown role")

unknown_permissions : List String → List (String × List String) → Result (Unit {0})
unknown_permissions permissions [] = ok tt
unknown_permissions permissions ((role, perms) ∷ rest) =
    let later = unknown_permissions permissions rest in
    if contains perms permission_wildcard
    then later
    else if is_empty (select (λ p. not (contains permissions p)) perms)
    then later
    else err (value_error "role_permissions: unknown permissions")

-- The validator: the first unknown role or permission is an error, and no other model is built.
unfoldable pub validate_consistency : PackAuthModel → Result PackAuthModel
unfolding unknown_roles unknown_permissions
validate_consistency m = do
  unknown_roles m.roles m.role_permissions
  unknown_permissions m.permissions m.role_permissions
  ok m

-- `role_permissions.get(role, [])`
unfoldable pub entry_for : String → List (String × List String) → List String
entry_for role [] = []
entry_for role ((r, perms) ∷ rest) = if str_eq r role then perms else entry_for role rest

unfoldable pub permissions_for_role : PackAuthModel → String → List String
permissions_for_role m role =
    let perms = entry_for role m.role_permissions in
    if contains perms permission_wildcard then m.permissions else perms

pub is_valid_role : PackAuthModel → String → Bool
is_valid_role m role = contains m.roles role

pub is_valid_permission : PackAuthModel → String → Bool
is_valid_permission m perm = contains m.permissions perm
