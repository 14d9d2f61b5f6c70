-- ===== src/PackModels/Declared.antt =====
-- What validation guarantees of the permissions that a role expands to.
use accelerator_pack_auth_se.Prelude.{
  String, List, [], ◌∷◌, ◌≡◌, true, false, not, ok, arith, contains, is_empty-select,
}
use accelerator_pack_auth_se.PackModels.{
  PackAuthModel, permission_wildcard, unknown_permissions, validate_consistency, entry_for,
  permissions_for_role,
}

entry_for-declared :
    (permissions : List String) (entries : List (String × List String)) (role s : String)
    → unknown_permissions permissions entries ≡ ok tt
    → contains (entry_for role entries) permission_wildcard ≡ false
    → contains (entry_for role entries) s ≡ true
    → contains permissions s ≡ true
unfolding unknown_permissions entry_for contains
entry_for-declared permissions [] role s v w h = cc
entry_for-declared permissions ((r, perms) ∷ rest) role s v w h = ground (
  arith,
  entry_for-declared permissions rest role s,
  is_empty-select (λ p. not (contains permissions p)) perms s,
)

-- In a validated model, each permission that a role expands to, with or without a wildcard, is one
-- of the permissions that the model declares.
pub permissions_for_role-declared :
    (m m' : PackAuthModel) (role s : String)
    → validate_consistency m ≡ ok m'
    → contains (permissions_for_role m role) s ≡ true
    → contains m.permissions s ≡ true
unfolding validate_consistency permissions_for_role
permissions_for_role-declared m m' role s v h =
    ground (arith, entry_for-declared m.permissions m.role_permissions role s)
