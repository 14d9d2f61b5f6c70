-- ===== src/Roles/Tests.antt =====
-- Witnesses for the theorems on roles.
use accelerator_pack_auth_se.Prelude.{[], ◌∷◌, ◌≡◌, arith, select}
use accelerator_pack_auth_se.Samples.{ext, settings, now, admin_db}
use accelerator_pack_auth_se.Roles.System.{deletes, after, after-system, system_part}
use accelerator_pack_auth_se.Roles.Granted.{HasKeys, Granted, set_role_permissions_lem}
use accelerator_pack_auth_se.Roles.{set_role_permissions}

after-system_example :
    system_part (after ext settings now "k1" (deletes 1) admin_db) ≡ system_part admin_db
after-system_example = after-system ext settings now "k1" (deletes 1) admin_db

one_permission : HasKeys (λ p. p.id) admin_db.permissions.rows
unfolding select
one_permission k = ground arith

set_role_permissions_lem_example :
    Granted ext settings now "k1" 1
      ("write" ∷ "missing" ∷ [])
      admin_db
      (set_role_permissions ext settings now "k1" 1 ("write" ∷ "missing" ∷ []) admin_db)
set_role_permissions_lem_example =
    set_role_permissions_lem ext settings now "k1" 1 ("write" ∷ "missing" ∷ []) admin_db
      one_permission
