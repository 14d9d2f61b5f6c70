-- ===== src/PackModels/Registry.antt =====
-- pack_models/*.py: the packs, the registry, and the loader of the active model.
use accelerator_pack_auth_se.Prelude.{
  String, List, [], ◌∷◌, ◌≡◌, refl, Option, none, some, ok, arith, str_eq, contains, select,
  if◌then◌else◌, false, true, ap, ◌≢◌, Bool-cases, Option-cases, inl, inr, subst,
}
use accelerator_pack_auth_se.PackModels.{
  PackAuthModel, permission_wildcard, validate_consistency, permissions_for_role,
}
use accelerator_pack_auth_se.PackModels.Declared.{permissions_for_role-declared}

abbrev pub base_model : PackAuthModel
base_model = record {
  pack_id = "base";
  roles = "admin" ∷ "user" ∷ [];
  permissions = "admin.users.manage" ∷ "admin.audit.view" ∷ [];
  role_permissions = ("admin", permission_wildcard ∷ []) ∷ ("user", []) ∷ [];
}

abbrev pub cuopt_model : PackAuthModel
cuopt_model = record {
  pack_id = "cuopt";
  roles = "admin" ∷ "user" ∷ "reader" ∷ [];
  permissions =
      "cuopt.solve" ∷ "cuopt.view" ∷ "chat.use" ∷ "weather.view" ∷ "config.read"
      ∷ "admin.users.manage" ∷ "admin.config.write" ∷ "admin.features.toggle" ∷ "admin.audit.view"
      ∷ [];
  role_permissions =
      ("admin", permission_wildcard ∷ [])
      ∷ ("user", "cuopt.solve" ∷ "cuopt.view" ∷ "chat.use" ∷ "weather.view" ∷ "config.read" ∷ [])
      ∷ ("reader", "cuopt.view" ∷ "config.read" ∷ [])
      ∷ [];
}

abbrev pub dox_pack_model : PackAuthModel
dox_pack_model = record {
  pack_id = "dox_pack";
  roles = "admin" ∷ "user" ∷ [];
  permissions = "admin.users.manage" ∷ "admin.audit.view" ∷ [];
  role_permissions = ("admin", permission_wildcard ∷ []) ∷ ("user", []) ∷ [];
}

abbrev pub warehouse_pick_path_model : PackAuthModel
warehouse_pick_path_model = record {
  pack_id = "warehouse_pick_path";
  roles = "admin" ∷ "user" ∷ [];
  permissions = "admin.users.manage" ∷ "admin.audit.view" ∷ [];
  role_permissions = ("admin", permission_wildcard ∷ []) ∷ ("user", []) ∷ [];
}

abbrev pub paas_rag_model : PackAuthModel
paas_rag_model = record {
  pack_id = "paas_rag";
  roles = "admin" ∷ "user" ∷ "reader" ∷ "pending" ∷ [];
  permissions =
      "users:list" ∷ "users:read" ∷ "users:update" ∷ "users:delete" ∷ "collections:read"
      ∷ "collections:write" ∷ "collections:manage" ∷ "collections:delete" ∷ "roles:list"
      ∷ "roles:create" ∷ "roles:read" ∷ "roles:update" ∷ "roles:delete" ∷ "permissions:list"
      ∷ "permissions:check" ∷ [];
  role_permissions =
      ("admin", permission_wildcard ∷ [])
      ∷ ("user", "collections:read" ∷ "collections:write" ∷ [])
      ∷ ("reader", "collections:read" ∷ [])
      ∷ ("pending", [])
      ∷ [];
}

abbrev pub vss_model : PackAuthModel
vss_model = record {
  pack_id = "vss";
  roles = "admin" ∷ "user" ∷ "reader" ∷ [];
  permissions =
      "vss.summarize" ∷ "vss.view" ∷ "vss.review" ∷ "admin.users.manage" ∷ "admin.roles.manage"
      ∷ "admin.groups.manage" ∷ "admin.providers.manage" ∷ "admin.collections.manage"
      ∷ "admin.features.toggle" ∷ "admin.config.write" ∷ "admin.audit.view" ∷ [];
  role_permissions =
      ("admin", permission_wildcard ∷ [])
      ∷ ("user", "vss.summarize" ∷ "vss.view" ∷ "vss.review" ∷ [])
      ∷ ("reader", "vss.view" ∷ [])
      ∷ [];
}

abbrev pub pack_models : List (String × PackAuthModel)
pack_models =
    ("base", base_model)
    ∷ ("cuopt", cuopt_model)
    ∷ ("paas_rag", paas_rag_model)
    ∷ ("vss", vss_model)
    ∷ ("warehouse_pick_path", warehouse_pick_path_model)
    ∷ ("dox_pack", dox_pack_model)
    ∷ []

unfoldable pub get_model : String → List (String × PackAuthModel) → Option PackAuthModel
get_model pack_id [] = none
get_model pack_id ((k, m) ∷ rest) = if str_eq k pack_id then some m else get_model pack_id rest

-- An unknown pack falls back to the base model (and logs a warning).
unfoldable pub load_active_model : String → PackAuthModel
unfolding get_model
load_active_model pack_id = elim (get_model pack_id pack_models) [ none ↦ base_model | some m ↦ m ]

abbrev AllModels : (PackAuthModel → Type 0) → List (String × PackAuthModel) → Type 0
AllModels P [] = Unit
AllModels P ((k, m) ∷ rest) = P m × AllModels P rest

module _ (P : PackAuthModel → Type 0) where
  get_model-AllModels :
      (pack_id : String) (models : List (String × PackAuthModel)) (m : PackAuthModel)
      → AllModels P models
      → get_model pack_id models ≡ some m
      → P m
  unfolding get_model
  get_model-AllModels pack_id [] m v h = cc
  get_model-AllModels pack_id ((k, m') ∷ rest) m v h = elim (Bool-cases (str_eq k pack_id)) [
    | inl here ↦ subst P (ground arith) v.0
    | inr there ↦ get_model-AllModels pack_id rest m v.1 (ground arith)
  ]

  -- What holds of every registered pack holds of the active one.
  load_active_model-AllModels :
      (pack_id : String) → AllModels P pack_models → P (load_active_model pack_id)
  unfolding load_active_model
  load_active_model-AllModels pack_id v = elim (Option-cases (get_model pack_id pack_models)) [
    | inl e ↦ rw (e, load_active_model) v.0
    | inr (m, e) ↦ rw (e, load_active_model) (get_model-AllModels pack_id pack_models m v e)
  ]

models_valid :
    AllModels
      (λ m. (validate_consistency m ≡ ok m) × (contains m.permissions permission_wildcard ≡ false))
      pack_models
unfolding validate_consistency contains select
models_valid = (
  (refl, refl),
  ((refl, refl), ((refl, refl), ((refl, refl), ((refl, refl), ((refl, refl), tt))))),
)

-- Whatever the pack's name, known or not, the model that is loaded passes the validator, and
-- the wildcard is not among its permissions.
pub load_active_model-valid :
    (pack_id : String)
    → let m = load_active_model pack_id in
      (validate_consistency m ≡ ok m) × (contains m.permissions permission_wildcard ≡ false)
load_active_model-valid pack_id =
    load_active_model-AllModels
      (λ m. (validate_consistency m ≡ ok m) × (contains m.permissions permission_wildcard ≡ false))
      pack_id models_valid

-- Every permission that the active pack gives to a role is declared by that pack, and it is not
-- the wildcard.
pub load_active_model-declared :
    (pack_id role s : String)
    → contains (permissions_for_role (load_active_model pack_id) role) s ≡ true
    → (contains (load_active_model pack_id).permissions s ≡ true) × (s ≢ permission_wildcard)
load_active_model-declared pack_id role s h =
    let valid = load_active_model-valid pack_id in
    let declared = permissions_for_role-declared _ _ role s valid.0 h in
    (declared, λ e. cc (valid.1, declared, ap (contains (load_active_model pack_id).permissions) e))
