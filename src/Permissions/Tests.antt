-- ===== src/Permissions/Tests.antt =====
-- Witnesses for the theorems on permission checks.
use accelerator_pack_auth_se.Prelude.{
  ℕ, List, [], ◌∷◌, ◌≡◌, refl, true, false, none, ok, err, multiple_results_found, arith, contains,
  select, flat_map, dedup, ◌≤◌, length, ◌⊎◌, inl, inr, ◌↔◌,
}
use accelerator_pack_auth_se.Models.Rows.{DbRole, Permission, UserRole}
use accelerator_pack_auth_se.Models.Database.{Database}
use accelerator_pack_auth_se.Samples.{alice, db}
use accelerator_pack_auth_se.Scopes.{assigned_permissions, fetch_user_role_permissions}
use accelerator_pack_auth_se.Permissions.{role_rows, or_else, check_permission}
use accelerator_pack_auth_se.Permissions.Permitted.{IsHeldBy, IsAssigned, IsPermitted}
use accelerator_pack_auth_se.Permissions.Answers.{
  check_permission-ok, check_permission-twice, check_permission-scope,
}
use accelerator_pack_auth_se.Table.Membership.{In}

abbrev role : ℕ → DbRole
role id = record {
  id = id;
  tenant_id = none;
  name = "editor";
  description = none;
  is_system = false;
  is_default = false;
  created_at = 0;
}

abbrev permission : Permission
permission = record { id = 1; codename = "doc.write"; description = none; resource_type = none }

abbrev assignment : ℕ → UserRole
assignment role_id = record {
  id = role_id;
  user_id = 1;
  role_id = role_id;
  tenant_id = none;
  scope_type = none;
  scope_id = none;
  granted_by = none;
  created_at = 0;
}

-- Two roles give one permission, and alice has the first of them, or both.
abbrev with_roles : List UserRole → Database
with_roles assignments = record db {
  roles = record { rows = role 1 ∷ role 2 ∷ []; next_id = 3 };
  permissions = record { rows = permission ∷ []; next_id = 2 };
  role_permissions = record {
    rows =
        record { role_id = 1; permission_id = 1 } ∷ record { role_id = 2; permission_id = 1 } ∷ [];
    next_id = 3;
  };
  user_roles = record { rows = assignments; next_id = 3 };
}

abbrev once : Database
once = with_roles (assignment 1 ∷ [])

abbrev both : Database
both = with_roles (assignment 1 ∷ assignment 2 ∷ [])

held_by :
    (id : ℕ) (assignments : List UserRole)
    → In (role id) (with_roles assignments).roles.rows
    → In (record { role_id = id; permission_id = 1 }) (with_roles assignments).role_permissions.rows
    → IsHeldBy (with_roles assignments) permission (role id)
held_by id assignments row link = record {
  role_row = row;
  link = record { role_id = id; permission_id = 1 };
  link_row = link;
  of_role = refl;
  of_permission = refl;
}

assigned :
    (id : ℕ) (assignments : List UserRole)
    → In (assignment id) assignments
    → IsAssigned (with_roles assignments) alice (role id)
assigned id assignments row = record {
  assignment = assignment id;
  assignment_row = row;
  of_user = refl;
  of_role = refl;
}

check_permission-ok_example : (true ≡ true) ↔ IsPermitted once alice "doc.write" none none
unfolding check_permission or_else role_rows select flat_map
check_permission-ok_example = check_permission-ok once alice "doc.write" none none true refl

check_permission-twice_example :
    check_permission both alice "doc.write" none none ≡ err multiple_results_found
check_permission-twice_example =
    check_permission-twice both alice "doc.write" none none permission (role 1) (role 2) refl
      (inl refl) refl (held_by 1 _ (inl refl) (inl refl))
      (held_by 2 _ (inr (inl refl)) (inr (inl refl))) (assigned 1 _ (inl refl))
      (assigned 2 _ (inr (inl refl))) (λ same. absurd (omega arith))

check_permission-scope_example :
    (check_permission once alice "doc.write" none none ≡ ok true)
    ⊎ ((check_permission once alice "doc.write" none none ≡ err multiple_results_found)
        × (2 ≤ length (role_rows once alice "doc.write")))
unfolding fetch_user_role_permissions assigned_permissions select dedup contains flat_map
check_permission-scope_example = check_permission-scope once alice "doc.write" none none refl
