-- ===== src/Collections/Tests.antt =====
-- A witness for the theorem on the permissions on collections.
use accelerator_pack_auth_se.Prelude.{[], ◌∷◌}
use accelerator_pack_auth_se.Samples.{ext, settings, now, admin_db}
use accelerator_pack_auth_se.Models.{PermissionLevel}
use accelerator_pack_auth_se.Collections.{CollectionPermissionRequest, assign_collection_permission}
use accelerator_pack_auth_se.Collections.Levels.{Sets, assign_collection_permission_refines}

abbrev req : CollectionPermissionRequest
req = record { user_id = 1; permission_level = PermissionLevel.read }

assign_collection_permission_refines_example :
    Sets ext settings now "k1" "papers" 1
      (PermissionLevel.read ∷ [])
      admin_db
      (assign_collection_permission ext settings now "k1" "papers" req admin_db)
assign_collection_permission_refines_example =
    assign_collection_permission_refines ext settings now "k1" "papers" req admin_db
