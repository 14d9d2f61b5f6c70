-- ===== src/Permissions/Answers.antt =====
-- What `check_permission` answers, by what is permitted and by the scopes of a token.
use accelerator_pack_auth_se.Prelude.{
  both_true, ℕ, ◌≤◌, String, List, [], ◌∷◌, ◌≡◌, ◌≢◌, refl, ap, sym, ◌∙◌, Bool, true, false, ◌||◌,
  contains, contains-dedup, Option, ok, err, multiple_results_found, arith, str_eq, eq_iff, length,
  map, Bool-cases, ◌⊎◌, inl, inr, ◌↔◌,
}
use accelerator_pack_auth_se.Table.Membership.{In, In-select}
use accelerator_pack_auth_se.Table.Joins.{
  nonempty, In-nonempty, In-flat_map, In-map, length-flat_map-le, length-flat_map-two,
  length-nonempty,
}
use accelerator_pack_auth_se.Models.{Role, is_admin}
use accelerator_pack_auth_se.Models.Rows.{User, Permission, DbRole}
use accelerator_pack_auth_se.Models.Database.{Database}
use accelerator_pack_auth_se.Permissions.{
  role_rows, system_rows, grant_rows, ownership_rows, check_permission,
}
use accelerator_pack_auth_se.Permissions.Check.{
  check_permission-rows, check_permission-two_rows, check_permission-some_row,
}
use accelerator_pack_auth_se.Scopes.{assigned_permissions, fetch_user_role_permissions}
use accelerator_pack_auth_se.Permissions.Permitted.{
  IsHeldBy, IsAssigned, IsPermitted, by_admin, by_assignment, by_system_role, by_grant,
  by_ownership, num_eq,
}
use accelerator_pack_auth_se.Permissions.Sound.{
  role_rows-IsPermitted, system_rows-IsPermitted, grant_rows-IsPermitted,
  ownership_rows-IsPermitted,
}
use accelerator_pack_auth_se.Permissions.Complete.{
  permission-In, assigned_row, link-In, role_rows-In, system_rows-In, grant_rows-In,
  ownership_rows-In,
}

le_trans : {a b c : ℕ} → a ≤ b → b ≤ c → a ≤ c
le_trans h k = omega arith

-- The first of five tests that holds.
five :
    (a b c d e : Bool)
    → (a || b || c || d || e) ≡ true
    → (a ≡ true) ⊎ (b ≡ true) ⊎ (c ≡ true) ⊎ (d ≡ true) ⊎ (e ≡ true)
five true b c d e h = inl refl
five false true c d e h = inr (inl refl)
five false false true d e h = inr (inr (inl refl))
five false false false true e h = inr (inr (inr (inl refl)))
five false false false false e h = inr (inr (inr (inr h)))

named_row :
    (ps : List Permission) (s : String)
    → contains (map (λ p. p.codename) ps) s ≡ true
    → (p : Permission) × In p ps × (p.codename ≡ s)
unfolding contains
named_row [] s h = absurd (cc)
named_row (p ∷ ps) s h = elim (Bool-cases (str_eq p.codename s)) [
  | inl e ↦ (p, inl refl, (eq_iff p.codename s).0 e)
  | inr e ↦ let (q, m, named) = named_row ps s (ground (arith, e)) in (q, inr m, named)
]

module _ (db : Database) (user : User) (codename : String)
    (resource_type resource_id : Option String) where
  abbrev Permitted : Type 0
  Permitted = IsPermitted db user codename resource_type resource_id

  abbrev some_row : Bool
  some_row =
      is_admin user.role
      || nonempty (role_rows db user codename)
      || nonempty (system_rows db user codename)
      || nonempty (grant_rows db user codename resource_type resource_id)
      || nonempty (ownership_rows db user resource_type resource_id)

  admin_role : (r : Role) → is_admin r ≡ true → r ≡ Role.admin
  admin_role r h = ground arith

  some_row-IsPermitted : some_row ≡ true → Permitted
  some_row-IsPermitted h = elim (five _ _ _ _ _ h) [
    | inl e ↦ by_admin (admin_role user.role e)
    | inr (inl e) ↦ role_rows-IsPermitted db user codename resource_type resource_id e
    | inr (inr (inl e)) ↦ system_rows-IsPermitted db user codename resource_type resource_id e
    | inr (inr (inr (inl e))) ↦ grant_rows-IsPermitted db user codename resource_type resource_id e
    | inr (inr (inr (inr e))) ↦
        ownership_rows-IsPermitted db user codename resource_type resource_id e
  ]

  IsPermitted-some_row : Permitted → some_row ≡ true
  IsPermitted-some_row (by_admin e) = ground arith
  IsPermitted-some_row (by_assignment p r row named held assigned) =
      let h =
        In-nonempty _ p
          (role_rows-In db user codename resource_type resource_id p r row named held assigned) in
      ground arith
  IsPermitted-some_row (by_system_role p r row named held name system) =
      let h = In-nonempty _ p (
        system_rows-In db user codename resource_type resource_id p r row named held name system) in
      ground arith
  IsPermitted-some_row (by_grant p g row named g_row of_p of_user type id) =
      let h = In-nonempty _ g (
        grant_rows-In db user codename resource_type resource_id p g row named g_row of_p of_user
          type id) in
      ground arith
  IsPermitted-some_row (by_ownership o row type id type_given id_given owner) =
      let h = In-nonempty _ o (
        ownership_rows-In db user codename resource_type resource_id o row type id type_given
          id_given owner) in
      ground arith

  -- Where the check answers, it answers yes exactly to those who are permitted: an administrator; a
  -- user with an assigned role that holds a permission of that codename; one whose role has the name of
  -- a system role that holds it; one with a direct grant of it that covers the resource; and the owner
  -- of the resource.
  pub check_permission-ok :
      (answer : Bool)
      → check_permission db user codename resource_type resource_id ≡ ok answer
      → (answer ≡ true) ↔ IsPermitted db user codename resource_type resource_id
  check_permission-ok answer h =
      let same = check_permission-rows db user codename resource_type resource_id answer h in
      (
        λ yes. some_row-IsPermitted (sym same ∙ yes),
        λ permitted. same ∙ IsPermitted-some_row permitted,
      )

  -- The check of anyone but an administrator raises MultipleResultsFound where the user is assigned two
  -- roles, of different identifiers, that both hold a permission of that codename, whatever the resource.
  pub check_permission-twice :
      (p : Permission) (r r' : DbRole)
      → is_admin user.role ≡ false
      → In p db.permissions.rows
      → p.codename ≡ codename
      → IsHeldBy db p r
      → IsHeldBy db p r'
      → IsAssigned db user r
      → IsAssigned db user r'
      → r.id ≢ r'.id
      → check_permission db user codename resource_type resource_id ≡ err multiple_results_found
  unfolding role_rows
  check_permission-twice p r r' other row named held held' assigned assigned' apart =
      let two =
        length-flat_map-two _ _ held.link held'.link
          (link-In db user codename resource_type resource_id p r held)
          (link-In db user codename resource_type resource_id p r' held')
          (λ same. apart (sym held.of_role ∙ ap (λ rp. rp.role_id) same ∙ held'.of_role))
          (length-nonempty _ (
            In-nonempty _ p
              (assigned_row db user codename resource_type resource_id p r held assigned)))
          (length-nonempty _ (
            In-nonempty _ p
              (assigned_row db user codename resource_type resource_id p r' held' assigned'))) in
      let whole =
        length-flat_map-le _ _ p
          (permission-In db user codename resource_type resource_id p row named) in
      check_permission-two_rows db user codename resource_type resource_id other
        (le_trans two whole)

  -- A permission that an assigned role gives makes it a scope of the user's tokens.
  fetch_user_role_permissions-In :
      contains (fetch_user_role_permissions db user.id) codename ≡ true
      → (p : Permission) × (r : DbRole) × In p db.permissions.rows
        × (p.codename ≡ codename)
        × IsHeldBy db p r
        × IsAssigned db user r
  unfolding fetch_user_role_permissions assigned_permissions
  fetch_user_role_permissions-In h =
      let (x, m, named) = named_row (assigned_permissions db user.id) codename (
        sym (contains-dedup (map (λ p. p.codename) (assigned_permissions db user.id)) codename)
        ∙ h) in
      let (p, p_row, m1) = In-flat_map _ _ x m in
      let (rp, rp_in, m2) = In-flat_map _ _ x m1 in
      let (r, r_in, m3) = In-flat_map _ _ x m2 in
      let (ur, ur_in, made) = In-map _ _ x m3 in
      let (rp_row, of_p) = In-select _ _ rp rp_in in
      let (r_row, of_rp) = In-select _ _ r r_in in
      let (ur_row, owned) = In-select _ _ ur ur_in in
      let (of_r, of_user) = both_true _ _ owned in
      (
        p,
        r,
        p_row,
        ap (λ q. q.codename) (sym made) ∙ named,
        record {
          role_row = r_row;
          link = rp;
          link_row = rp_row;
          of_role = sym (num_eq r.id rp.role_id of_rp);
          of_permission = num_eq rp.permission_id p.id of_p;
        },
        record {
          assignment = ur;
          assignment_row = ur_row;
          of_user = num_eq ur.user_id user.id of_user;
          of_role = num_eq ur.role_id r.id of_r;
        },
      )

  -- A codename that the user's assigned roles put among the scopes of a token is allowed by the check,
  -- whatever the resource; or the check raises, which it does only where its first query has two rows
  -- or more.
  pub check_permission-scope :
      contains (fetch_user_role_permissions db user.id) codename ≡ true
      → (check_permission db user codename resource_type resource_id ≡ ok true)
        ⊎ ((check_permission db user codename resource_type resource_id
              ≡ err multiple_results_found)
            × (2 ≤ length (role_rows db user codename)))
  check_permission-scope h =
      let (p, r, row, named, held, assigned) = fetch_user_role_permissions-In h in
      check_permission-some_row db user codename resource_type resource_id (
        In-nonempty _ p
          (role_rows-In db user codename resource_type resource_id p r row named held assigned))
