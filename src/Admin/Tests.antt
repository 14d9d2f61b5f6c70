-- ===== src/Admin/Tests.antt =====
-- Witnesses for the theorems on the administrator's handlers.
use accelerator_pack_auth_se.Prelude.{◌≤◌, [], ◌≡◌, refl, none, ok, err, arith, select}
use accelerator_pack_auth_se.Samples.{ext, settings, now, admin_db}
use accelerator_pack_auth_se.Decimal.{int, str}
use accelerator_pack_auth_se.Audit.{log_audit}
use accelerator_pack_auth_se.Keys.{get_key_by_kid, revoke_key, revoke_found}
use accelerator_pack_auth_se.Clients.{FreshClient, count_clients_for_owner}
use accelerator_pack_auth_se.Tokens.{
  unauthorized, read_kid, check_key, is_accepted, admit_claims, is_token_blacklisted, read_sub,
  find_user, decode_token, get_current_user, require_admin,
}
use accelerator_pack_auth_se.Admin.{
  ServiceAccountCreate, create_service_account, delete_signing_key,
}
use accelerator_pack_auth_se.Admin.Owners.{IsWithinLimit, create_service_account-IsWithinLimit}
use accelerator_pack_auth_se.Admin.Revocation.{delete_signing_key-refused}

abbrev fresh : FreshClient
fresh = record { id_token = "2"; secret_token = "2"; salt = "" }

abbrev req : ServiceAccountCreate
req = record { name = "second"; description = none; scopes = []; expires_at = none }

few : IsWithinLimit ext settings admin_db.service_accounts
unfolding count_clients_for_owner select
few owner_id = ground arith

create_service_account-IsWithinLimit_example :
    count_clients_for_owner 1
      (create_service_account ext settings fresh now "k1" req admin_db).1.service_accounts
    ≤ 20
create_service_account-IsWithinLimit_example =
    create_service_account-IsWithinLimit ext settings fresh now "k1" req admin_db few 1

deleted : (delete_signing_key ext settings now "k1" "k1" admin_db).0 ≡ ok tt
unfolding delete_signing_key require_admin get_current_user decode_token read_kid get_key_by_kid
    select check_key is_accepted admit_claims is_token_blacklisted read_sub int str find_user
    revoke_key revoke_found log_audit
deleted = refl

delete_signing_key-refused_example :
    (decode_token ext settings now "k1"
      (delete_signing_key ext settings now "k1" "k1" admin_db).1).0
    ≡ err (unauthorized "Unknown or revoked signing key")
unfolding read_kid
delete_signing_key-refused_example =
    delete_signing_key-refused ext settings now now "k1" "k1" "k1" admin_db tt deleted refl
