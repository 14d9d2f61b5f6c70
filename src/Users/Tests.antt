-- ===== src/Users/Tests.antt =====
-- Witnesses for the theorems on the change of users.
use accelerator_pack_auth_se.Prelude.{[], ◌∷◌, ◌≡◌, ◌≢◌, refl, none, some, ok, false, select}
use accelerator_pack_auth_se.Samples.{ext, settings, now, alice, boss, admin_db}
use accelerator_pack_auth_se.Users.{
  UpdateUserRequest, audit_changes, changes, active_change, apply_user_update, join_changes,
  role_change, save_user, user_response, update_user,
}
use accelerator_pack_auth_se.Users.Deactivated.{update_user-deactivated}
use accelerator_pack_auth_se.Decimal.{int, str}
use accelerator_pack_auth_se.Table.{update_where}
use accelerator_pack_auth_se.Audit.{log_audit}
use accelerator_pack_auth_se.Keys.{get_key_by_kid}
use accelerator_pack_auth_se.Tokens.{
  require_admin, get_current_user, decode_token, read_kid, check_key, is_accepted, admit_claims,
  is_token_blacklisted, read_sub, find_user,
}
use accelerator_pack_auth_se.Models.Rows.{User}
use accelerator_pack_auth_se.Models.Database.{Database}

abbrev bob : User
bob = record alice { id = 2; email = "bob@example.com" }

abbrev two_db : Database
two_db = record admin_db { users = record { rows = boss ∷ bob ∷ []; next_id = 3 } }

abbrev off : UpdateUserRequest
off = record { role = none; is_active = some false; name = none }

done :
    (update_user ext settings now "k1" 2 off two_db).0
    ≡ ok (user_response (record bob { is_active = false }))
unfolding update_user require_admin get_current_user decode_token read_kid get_key_by_kid select
    check_key is_accepted admit_claims is_token_blacklisted read_sub int str find_user audit_changes
    changes log_audit update_where active_change apply_user_update join_changes role_change
    save_user user_response
done = refl

entered :
    (get_current_user ext settings now "k1" (update_user ext settings now "k1" 2 off two_db).1).0
    ≡ ok boss
unfolding update_user require_admin get_current_user decode_token read_kid get_key_by_kid select
    check_key is_accepted admit_claims is_token_blacklisted read_sub int str find_user audit_changes
    changes log_audit update_where active_change apply_user_update join_changes role_change
    save_user user_response
entered = refl

update_user-deactivated_example : boss.id ≢ bob.id
update_user-deactivated_example =
    update_user-deactivated ext settings now "k1" 2 off refl now "k1" two_db
      (user_response (record bob { is_active = false })) boss done entered
