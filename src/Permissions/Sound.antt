-- ===== src/Permissions/Sound.antt =====
-- A row of one of the four queries of `check_permission` permits.
use accelerator_pack_auth_se.Prelude.{
  both_true, String, ◌≡◌, ◌≢◌, ap, sym, ◌∙◌, true, false, ◌||◌, Option, none, some, arith, ◌==◌,
  str_eq, eq_iff, Bool-cases, inl, inr,
}
use accelerator_pack_auth_se.Table.Membership.{In-select}
use accelerator_pack_auth_se.Table.Joins.{nonempty, nonempty-In, In-flat_map, In-map}
use accelerator_pack_auth_se.Models.{role_value}
use accelerator_pack_auth_se.Models.Rows.{User}
use accelerator_pack_auth_se.Models.Database.{Database}
use accelerator_pack_auth_se.ScopeString.{text_or_empty}
use accelerator_pack_auth_se.Permissions.{
  role_rows, system_rows, grant_rows, ownership_rows, column_eq, when_given,
}
use accelerator_pack_auth_se.Permissions.Permitted.{
  IsPermitted, by_assignment, by_system_role, by_grant, by_ownership, num_eq, three, Covers-when,
}

module _ (db : Database) (user : User) (codename : String)
    (resource_type resource_id : Option String) where
  abbrev Permitted : Type 0
  Permitted = IsPermitted db user codename resource_type resource_id

  pub role_rows-IsPermitted : nonempty (role_rows db user codename) ≡ true → Permitted
  unfolding role_rows
  role_rows-IsPermitted h =
      let (x, m) = nonempty-In _ h in
      let (p, p_in, m1) = In-flat_map _ _ x m in
      let (rp, rp_in, m2) = In-flat_map _ _ x m1 in
      let (r, r_in, m3) = In-flat_map _ _ x m2 in
      let (ur, ur_in, made) = In-map _ _ x m3 in
      let (p_row, named) = In-select _ _ p p_in in
      let (rp_row, of_p) = In-select _ _ rp rp_in in
      let (r_row, of_rp) = In-select _ _ r r_in in
      let (ur_row, owned) = In-select _ _ ur ur_in in
      let (of_r, of_user) = both_true _ _ owned in
      by_assignment p r p_row ((eq_iff p.codename codename).0 named)
        (record {
          role_row = r_row;
          link = rp;
          link_row = rp_row;
          of_role = sym (num_eq r.id rp.role_id of_rp);
          of_permission = num_eq rp.permission_id p.id of_p;
        })
        (record {
          assignment = ur;
          assignment_row = ur_row;
          of_user = num_eq ur.user_id user.id of_user;
          of_role = num_eq ur.role_id r.id of_r;
        })

  pub system_rows-IsPermitted : nonempty (system_rows db user codename) ≡ true → Permitted
  unfolding system_rows
  system_rows-IsPermitted h =
      let (x, m) = nonempty-In _ h in
      let (p, p_in, m1) = In-flat_map _ _ x m in
      let (rp, rp_in, m2) = In-flat_map _ _ x m1 in
      let (r, r_in, made) = In-map _ _ x m2 in
      let (p_row, named) = In-select _ _ p p_in in
      let (rp_row, of_p) = In-select _ _ rp rp_in in
      let (r_row, is_role) = In-select _ _ r r_in in
      let (e1, e2, e3) =
        three (r.id == rp.role_id) (str_eq r.name (role_value user.role)) r.is_system is_role in
      by_system_role p r p_row ((eq_iff p.codename codename).0 named)
        (record {
          role_row = r_row;
          link = rp;
          link_row = rp_row;
          of_role = sym (num_eq r.id rp.role_id e1);
          of_permission = num_eq rp.permission_id p.id of_p;
        })
        ((eq_iff r.name (role_value user.role)).0 e2) e3

  pub grant_rows-IsPermitted :
      nonempty (grant_rows db user codename resource_type resource_id) ≡ true → Permitted
  unfolding grant_rows
  grant_rows-IsPermitted h =
      let (x, m) = nonempty-In _ h in
      let (g, g_in, m1) = In-flat_map _ _ x m in
      let (p, p_in, made) = In-map _ _ x m1 in
      let (g_row, covers) = In-select _ _ g g_in in
      let (p_row, is_permission) = In-select _ _ p p_in in
      let (of_g, named) = both_true _ _ is_permission in
      let (e1, e2, e3) =
        three (g.user_id == user.id) (when_given resource_type (column_eq g.resource_type))
          (when_given resource_id (column_eq g.resource_id)) covers in
      by_grant p g p_row ((eq_iff p.codename codename).0 named) g_row
        (sym (num_eq p.id g.permission_id of_g)) (num_eq g.user_id user.id e1)
        (Covers-when g.resource_type resource_type e2) (Covers-when g.resource_id resource_id e3)

  given :
      (asked : Option String) (s : String)
      → str_eq (text_or_empty asked) "" ≡ false
      → str_eq s (text_or_empty asked) ≡ true
      → (asked ≡ some s) × (s ≢ "")
  given none s h e = absurd (ground (arith, h, eq_iff "" ""))
  given (some t) s h e =
      let same : s ≡ t = (eq_iff s t).0 e in
      (ap some (sym same), λ empty. absurd (ground (arith, h, eq_iff t "", sym same ∙ empty)))

  pub ownership_rows-IsPermitted :
      nonempty (ownership_rows db user resource_type resource_id) ≡ true → Permitted
  unfolding ownership_rows
  ownership_rows-IsPermitted h =
      elim (Bool-cases
        (str_eq (text_or_empty resource_type) "" || str_eq (text_or_empty resource_id) "")) [
          | inl e ↦ absurd (cc (rw e at h))
          | inr e ↦
              let (o, o_in) = nonempty-In _ (rw e at h) in
              let (o_row, is_owner) = In-select _ _ o o_in in
              let (e1, e2, e3) = three _ _ _ is_owner in
              let (t, t_given) = given resource_type o.resource_type (ground arith) e1 in
              let (i, i_given) = given resource_id o.resource_id (ground arith) e2 in
              by_ownership o o_row t i t_given i_given (num_eq o.owner_user_id user.id e3)
        ]
