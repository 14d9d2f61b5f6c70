-- ===== src/Seeding/Tests.antt =====
-- Witnesses for the theorems on the start of the service.
use accelerator_pack_auth_se.Prelude.{◌≡◌, ◌≢◌, refl, none, ok, false, select, contains}
use accelerator_pack_auth_se.Samples.{now, alice, db}
use accelerator_pack_auth_se.PackModels.{validate_consistency, permissions_for_role, entry_for}
use accelerator_pack_auth_se.PackModels.Registry.{cuopt_model}
use accelerator_pack_auth_se.Permissions.{check_permission}
use accelerator_pack_auth_se.Seeding.{
  seed_roles_and_permissions, seed_session, seed_permissions, ensure, seed_roles, seed_role,
  grant_codenames, find_codename,
}
use accelerator_pack_auth_se.Seeding.Again.{seed_roles_and_permissions-twice}
use accelerator_pack_auth_se.Seeding.Granted.{check_permission-seeded}

seeded : (seed_roles_and_permissions cuopt_model now db).0 ≡ ok tt
unfolding seed_roles_and_permissions seed_session seed_permissions ensure select seed_roles
    seed_role grant_codenames permissions_for_role contains entry_for find_codename
seeded = refl

seed_roles_and_permissions-twice_example :
    seed_roles_and_permissions cuopt_model 0 (seed_roles_and_permissions cuopt_model now db).1
    ≡ (ok tt, (seed_roles_and_permissions cuopt_model now db).1)
seed_roles_and_permissions-twice_example =
    seed_roles_and_permissions-twice cuopt_model now 0 db seeded

check_permission-seeded_example :
    check_permission (seed_roles_and_permissions cuopt_model now db).1 alice "cuopt.view" none none
    ≢ ok false
unfolding validate_consistency permissions_for_role contains select entry_for
check_permission-seeded_example =
    check_permission-seeded cuopt_model cuopt_model now db alice "cuopt.view" none none refl seeded
      refl refl
