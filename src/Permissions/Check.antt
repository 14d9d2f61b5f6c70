-- ===== src/Permissions/Check.antt =====
-- `check_permission` by the rows of its four queries.
use accelerator_pack_auth_se.Prelude.{
  ◌≤◌, String, List, [], ◌∷◌, ◌≡◌, refl, Bool, true, false, ◌||◌, Option, Result, ok, err,
  multiple_results_found, arith, length, if◌then◌else◌, Bool-cases, inl, inr, ◌⊎◌, ltb,
}
use accelerator_pack_auth_se.Table.Joins.{nonempty}
use accelerator_pack_auth_se.Models.{is_admin}
use accelerator_pack_auth_se.Models.Rows.{User}
use accelerator_pack_auth_se.Models.Database.{Database}
use accelerator_pack_auth_se.Permissions.{
  role_rows, system_rows, grant_rows, ownership_rows, or_else, check_permission,
}

abbrev repeats : {A : Type 0} → List A → Bool
repeats [] = false
repeats (x ∷ []) = false
repeats (x ∷ y ∷ rest) = true

or_else_lem :
    {A : Type 0} (rows : List A) (rest : Result Bool)
    → or_else rows rest ≡ (
        if repeats rows
        then err multiple_results_found
        else if nonempty rows
        then ok true
        else rest)
unfolding or_else
or_else_lem [] rest = refl
or_else_lem (x ∷ []) rest = refl
or_else_lem (x ∷ y ∷ rest') rest = refl

module _ (db : Database) (user : User) (codename : String)
    (resource_type resource_id : Option String) where
  -- An answer, where there is one, says whether the user is an admin or one of the four queries
  -- has a row.
  pub check_permission-rows :
      (answer : Bool)
      → check_permission db user codename resource_type resource_id ≡ ok answer
      → answer ≡ (
          is_admin user.role
          || nonempty (role_rows db user codename)
          || nonempty (system_rows db user codename)
          || nonempty (grant_rows db user codename resource_type resource_id)
          || nonempty (ownership_rows db user resource_type resource_id))
  unfolding check_permission
  check_permission-rows answer h =
      let owned = or_else (ownership_rows db user resource_type resource_id) (ok false) in
      let direct = or_else (grant_rows db user codename resource_type resource_id) owned in
      let system = or_else (system_rows db user codename) direct in
      ground (
        arith,
        or_else_lem (role_rows db user codename) system,
        or_else_lem (system_rows db user codename) direct,
        or_else_lem (grant_rows db user codename resource_type resource_id) owned,
        or_else_lem (ownership_rows db user resource_type resource_id) (ok false),
      )

  -- The first query alone decides where it has rows: one row allows, more raise.
  pub check_permission-two_rows :
      is_admin user.role ≡ false
      → 2 ≤ length (role_rows db user codename)
      → check_permission db user codename resource_type resource_id ≡ err multiple_results_found
  unfolding check_permission or_else
  check_permission-two_rows other twice = ground arith

  -- Where the first query has a row, the check allows, or it raises as there are two rows or more.
  pub check_permission-some_row :
      nonempty (role_rows db user codename) ≡ true
      → (check_permission db user codename resource_type resource_id ≡ ok true)
        ⊎ ((check_permission db user codename resource_type resource_id
              ≡ err multiple_results_found)
            × (2 ≤ length (role_rows db user codename)))
  unfolding check_permission or_else
  check_permission-some_row some_row = elim (Bool-cases (is_admin user.role)) [
    | inl e ↦ inl (rw e refl)
    | inr e ↦ elim (Bool-cases (ltb 1 (length (role_rows db user codename)))) [
      | inl twice ↦ inr (check_permission-two_rows e (ground arith), ground arith)
      | inr once ↦ inl (ground arith)
    ]
  ]
