-- ===== src/Sso/Mappings.antt =====
-- `apply_claim_mappings` of sso_service.py. `re_search` is `re.search`: whether the pattern is found in
-- the text, or `none` where the pattern is malformed and `re.error` is raised.
pub mod Held
pub mod Assigned
use accelerator_pack_auth_se.Prelude.{
  ℕ, String, List, [], ◌∷◌, ◌++◌, Bool, true, false, ◌&&◌, Option, none, some, Result, ok, err,
  re_error, ◌==◌, str_eq, is_some, select, if◌then◌else◌,
}
use accelerator_pack_auth_se.Prelude as Result
use accelerator_pack_auth_se.Exec.{Exec, found_or, pure, lift, modify, ◌>>=◌, ◌>>◌}
use accelerator_pack_auth_se.Table.{Table, insert_row, order_desc}
use accelerator_pack_auth_se.Values.{Value, null, text, number, list, other, str_of, Dict, get}
use accelerator_pack_auth_se.Models.{Time}
use accelerator_pack_auth_se.Models.Rows.{User, DbRole, UserRole}
use accelerator_pack_auth_se.Models.Federation.{ClaimRoleMapping}
use accelerator_pack_auth_se.Models.Database.{Database}
use accelerator_pack_auth_se.Queries.{one_where, transaction}

-- The values that a mapping looks at, each by its `str`; a claim that is missing or null has none.
abbrev pub claim_values : Value → List String
claim_values null = []
claim_values (text s) = s ∷ []
claim_values (number n) = str_of (number n) ∷ []
claim_values (list elements shown) = elements
claim_values (other b shown) = shown ∷ []

abbrev pub found_in : Option Bool → Result Bool
found_in none = err re_error
found_in (some b) = ok b

abbrev pub is_assignment : ℕ → ℕ → UserRole → Bool
is_assignment user_id role_id ur = ur.user_id == user_id && ur.role_id == role_id

abbrev pub mapped_role : ℕ → ℕ → Time → ℕ → UserRole
mapped_role user_id role_id now id = record {
  id = id;
  user_id = user_id;
  role_id = role_id;
  tenant_id = none;
  scope_type = none;
  scope_id = none;
  granted_by = none;
  created_at = now;
}

abbrev pub add_mapped : ℕ → ℕ → Time → Database → Database
add_mapped user_id role_id now db = record db {
  user_roles = insert_row (mapped_role user_id role_id now) db.user_roles;
}

abbrev pub name_of : Option DbRole → List String
name_of none = []
name_of (some role) = role.name ∷ []

-- The role of a mapping that matched, unless the user has it; the names that were assigned.
unfoldable pub assign_mapped : ℕ → ℕ → Time → Exec Database (List String)
assign_mapped user_id role_id now = do
  existing ← one_where (λ db. db.user_roles) (is_assignment user_id role_id)
  let assign =
      modify (add_mapped user_id role_id now)
      >> (one_where (λ db. db.roles) (λ r. r.id == role_id) >>= λ role. pure (name_of role))
  found_or assign existing λ ur. pure []

-- The mappings of a provider, those of high priority first.
abbrev pub provider_mappings : ℕ → Database → List ClaimRoleMapping
provider_mappings provider_id db =
    order_desc (λ m. m.priority)
      (select (λ m. m.provider_id == provider_id) db.claim_role_mappings.rows)

module _ (re_search : String → String → Option Bool) where
  abbrev pub matches_value : ClaimRoleMapping → String → Result Bool
  matches_value m value =
      if m.is_regex
      then found_in (re_search m.claim_value_pattern value)
      else ok (str_eq value m.claim_value_pattern)

  -- Whether some value matches; the loop ends at the first that does.
  unfoldable pub matches_any : ClaimRoleMapping → List String → Result Bool
  matches_any m [] = ok false
  matches_any m (value ∷ values) =
      let rest = matches_any m values in
      Result.◌>>=◌ (matches_value m value) λ matched. if matched then ok true else rest

  unfoldable pub apply_mapping : ℕ → Dict → Time → ClaimRoleMapping → Exec Database (List String)
  apply_mapping user_id claims now m = do
    matched ← lift (matches_any m (claim_values (get claims m.claim_key)))
    if matched then assign_mapped user_id m.role_id now else pure []

  unfoldable pub apply_mappings :
      ℕ → Dict → Time → List ClaimRoleMapping → Exec Database (List String)
  apply_mappings user_id claims now [] = pure []
  apply_mappings user_id claims now (m ∷ ms) = do
    names ← apply_mapping user_id claims now m
    later ← apply_mappings user_id claims now ms
    pure (names ++ later)

  unfoldable pub apply_claim_mappings : ℕ → User → Dict → Time → Exec Database (List String)
  apply_claim_mappings provider_id user claims now db =
      transaction (apply_mappings user.id claims now (provider_mappings provider_id db)) db
