-- ===== src/Groups/Tests.antt =====
-- A witness for the theorem on groups.
use accelerator_pack_auth_se.Prelude.{none, some}
use accelerator_pack_auth_se.Samples.{ext, settings, now, admin_db}
use accelerator_pack_auth_se.Groups.Access.{creates, HasSameAccess, after, after-access}
use accelerator_pack_auth_se.Clients.{unset}

after-access_example : HasSameAccess admin_db (
    after ext settings now "k1"
      (creates (record { name = some "team"; display_name = unset; description = none }))
      admin_db)
after-access_example =
    after-access ext settings now "k1"
      (creates (record { name = some "team"; display_name = unset; description = none })) admin_db
