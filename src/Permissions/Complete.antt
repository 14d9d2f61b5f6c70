-- ===== src/Permissions/Complete.antt =====
-- What permits is a row of one of the four queries of `check_permission`.
use accelerator_pack_auth_se.Prelude.{
  String, ◌≡◌, ◌≢◌, ap, sym, subst, true, false, ◌&&◌, Option, some, ◌==◌, str_eq, eq_iff, select,
  map, flat_map, Bool-cases, inl, inr,
}
use accelerator_pack_auth_se.Table.Membership.{In}
use accelerator_pack_auth_se.Table.Joins.{In-selected, In-flat_mapped, In-mapped}
use accelerator_pack_auth_se.Models.{role_value}
use accelerator_pack_auth_se.Models.Rows.{User, Permission, DbRole, DirectGrant, ResourceOwnership}
use accelerator_pack_auth_se.Models.Database.{Database}
use accelerator_pack_auth_se.ScopeString.{text_or_empty}
use accelerator_pack_auth_se.Permissions.{role_rows, system_rows, grant_rows, ownership_rows}
use accelerator_pack_auth_se.Permissions.Permitted.{
  IsHeldBy, IsAssigned, Covers, same_num, same_text, all_three, and_true, when-Covers,
}

module _ (db : Database) (user : User) (codename : String)
    (resource_type resource_id : Option String) where
  pub permission-In :
      (p : Permission)
      → In p db.permissions.rows
      → p.codename ≡ codename
      → In p (select (λ q. str_eq q.codename codename) db.permissions.rows)
  permission-In p row named =
      In-selected (λ q. str_eq q.codename codename) _ p row (same_text p.codename codename named)

  -- A role that holds the permission and that the user is assigned makes a row of the inner join.
  pub assigned_row :
      (p : Permission) (r : DbRole) (held : IsHeldBy db p r)
      → IsAssigned db user r
      → In p (
          flat_map
            (λ r.
              map
                (λ ur. p)
                (select (λ ur. ur.role_id == r.id && ur.user_id == user.id) db.user_roles.rows))
            (select (λ r. r.id == held.link.role_id) db.roles.rows))
  assigned_row p r held assigned =
      In-flat_mapped _ _ r p
        (In-selected (λ r. r.id == held.link.role_id) _ r held.role_row
          (same_num r.id held.link.role_id (sym held.of_role)))
        (In-mapped (λ ur. p) _ assigned.assignment
          (In-selected _ _ assigned.assignment assigned.assignment_row (
            and_true _ _ (same_num assigned.assignment.role_id r.id assigned.of_role)
              (same_num assigned.assignment.user_id user.id assigned.of_user))))

  pub link-In :
      (p : Permission) (r : DbRole) (held : IsHeldBy db p r)
      → In held.link (select (λ rp. rp.permission_id == p.id) db.role_permissions.rows)
  link-In p r held =
      In-selected (λ rp. rp.permission_id == p.id) _ held.link held.link_row
        (same_num held.link.permission_id p.id held.of_permission)

  pub role_rows-In :
      (p : Permission) (r : DbRole)
      → In p db.permissions.rows
      → p.codename ≡ codename
      → IsHeldBy db p r
      → IsAssigned db user r
      → In p (role_rows db user codename)
  unfolding role_rows
  role_rows-In p r row named held assigned =
      In-flat_mapped _ _ p p (permission-In p row named)
        (In-flat_mapped _ _ held.link p (link-In p r held) (assigned_row p r held assigned))

  pub system_rows-In :
      (p : Permission) (r : DbRole)
      → In p db.permissions.rows
      → p.codename ≡ codename
      → IsHeldBy db p r
      → r.name ≡ role_value user.role
      → r.is_system ≡ true
      → In p (system_rows db user codename)
  unfolding system_rows
  system_rows-In p r row named held name system =
      In-flat_mapped _ _ p p (permission-In p row named) (
        In-flat_mapped _ _ held.link p (link-In p r held) (
          In-mapped (λ r. p) _ r
            (In-selected _ _ r held.role_row (
              all_three _ _ _ (same_num r.id held.link.role_id (sym held.of_role))
                (same_text r.name (role_value user.role) name) system))))

  pub grant_rows-In :
      (p : Permission) (g : DirectGrant)
      → In p db.permissions.rows
      → p.codename ≡ codename
      → In g db.direct_grants.rows
      → g.permission_id ≡ p.id
      → g.user_id ≡ user.id
      → Covers g.resource_type resource_type
      → Covers g.resource_id resource_id
      → In g (grant_rows db user codename resource_type resource_id)
  unfolding grant_rows
  grant_rows-In p g row named g_row of_p of_user type id =
      In-flat_mapped _ _ g g
        (In-selected _ _ g g_row (
          all_three _ _ _ (same_num g.user_id user.id of_user)
            (when-Covers g.resource_type resource_type type)
            (when-Covers g.resource_id resource_id id)))
        (In-mapped (λ p. g) _ p
          (In-selected _ _ p row (
            and_true _ _ (same_num p.id g.permission_id (sym of_p))
              (same_text p.codename codename named))))

  not_empty :
      (asked : Option String) (s : String)
      → asked ≡ some s
      → s ≢ ""
      → str_eq (text_or_empty asked) "" ≡ false
  not_empty asked s e given =
      subst (λ a. str_eq (text_or_empty a) "" ≡ false) (sym e)
        (elim (Bool-cases (str_eq s "")) [ inl h ↦ absurd (given ((eq_iff s "").0 h)) | inr h ↦ h ])

  own_text :
      (asked : Option String) (s : String) → asked ≡ some s → str_eq s (text_or_empty asked) ≡ true
  own_text asked s e = same_text s (text_or_empty asked) (sym (ap text_or_empty e))

  pub ownership_rows-In :
      (o : ResourceOwnership)
      → In o db.resource_ownership.rows
      → resource_type ≡ some o.resource_type
      → resource_id ≡ some o.resource_id
      → o.resource_type ≢ ""
      → o.resource_id ≢ ""
      → o.owner_user_id ≡ user.id
      → In o (ownership_rows db user resource_type resource_id)
  unfolding ownership_rows
  ownership_rows-In o row type id type_given id_given owner =
      rw
        (
          not_empty resource_type o.resource_type type type_given,
          not_empty resource_id o.resource_id id id_given,
        )
        (In-selected _ _ o row (
          all_three _ _ _ (own_text resource_type o.resource_type type)
            (own_text resource_id o.resource_id id) (same_num o.owner_user_id user.id owner)))
