-- ===== src/Assignments/Tests.antt =====
-- A witness for the theorem on the assignment of roles.
use accelerator_pack_auth_se.Prelude.{none}
use accelerator_pack_auth_se.Samples.{ext, settings, now, admin_db}
use accelerator_pack_auth_se.Assignments.{UserRoleAssign, assign_user_role}
use accelerator_pack_auth_se.Assignments.Gained.{Gained, assign_user_role-Gained}

abbrev req : UserRoleAssign
req = record { role_id = 1; tenant_id = none; scope_type = none; scope_id = none }

assign_user_role-Gained_example :
    Gained ext settings now "k1" 1 req admin_db
      (assign_user_role ext settings now "k1" 1 req admin_db)
assign_user_role-Gained_example = assign_user_role-Gained ext settings now "k1" 1 req admin_db
