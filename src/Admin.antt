-- ===== src/Admin.antt =====
-- The handlers of main.py for service accounts and signing keys, which only an administrator may call.
-- `token` is the caller's; the order of the two dependencies is that of the signatures.
pub mod Owners
pub mod Revocation
mod Tests
use accelerator_pack_auth_se.Prelude.{
  ℕ, String, List, Bool, true, false, not, Option, none, some, Error, http, leb, map, if◌then◌else◌,
}
use accelerator_pack_auth_se.Exec.{Exec, found_or, pure, raise, gets, guard, ◌>>=◌, ◌>>◌}
use accelerator_pack_auth_se.Table.{order_desc}
use accelerator_pack_auth_se.Models.{Time, SigningKeyStatus, success}
use accelerator_pack_auth_se.Models.Rows.{User, ServiceAccount, SigningKey}
use accelerator_pack_auth_se.Models.Database.{Database}
use accelerator_pack_auth_se.External.{External}
use accelerator_pack_auth_se.Config.{Settings}
use accelerator_pack_auth_se.Decimal.{str}
use accelerator_pack_auth_se.Keys.{FreshKey, rotate_active_key, revoke_key}
use accelerator_pack_auth_se.Audit.{absent, log_audit}
use accelerator_pack_auth_se.Clients.{
  Accounts, FreshClient, ClientUpdate, ClientView, service_account_to_dict, count_clients_for_owner,
  create_client, list_all_clients, get_client_by_id, update_client, rotate_secret, revoke_client,
}
use accelerator_pack_auth_se.Tokens.{on_keys, on_audit, require_admin}
use accelerator_pack_auth_se.Oauth.{on_accounts}
use Prim.Native.String as Text

pub record ServiceAccountCreate : Type 0 where
  pub name : String
  pub description : Option String
  pub scopes : List String
  pub expires_at : Option Time

abbrev pub account_not_found : Error
account_not_found = http 404 "Service account not found"

abbrev pub limit_reached : ℕ → String
limit_reached n = Text.◌++◌ "Per-owner client limit reached (" (Text.◌++◌ (str n) ")")

-- `_signing_key_to_dict`, with the instants as they are.
pub record KeyView : Type 0 where
  pub id : ℕ
  pub kid : String
  pub algorithm : String
  pub status : SigningKeyStatus
  pub created_at : Time
  pub rotated_at : Option Time
  pub revoked_at : Option Time

abbrev pub signing_key_to_dict : SigningKey → KeyView
signing_key_to_dict key = record {
  id = key.id;
  kid = key.kid;
  algorithm = key.algorithm;
  status = key.status;
  created_at = key.created_at;
  rotated_at = key.rotated_at;
  revoked_at = key.revoked_at;
}

-- `log_audit(db, admin.id, action, target)`
abbrev pub audit_as : User → String → String → Time → Exec Database Unit
audit_as admin action target now =
    on_audit (log_audit (some admin.id) action target absent none none now)

abbrev pub client_target : ServiceAccount → String
client_target account = Text.◌++◌ "client=" account.client_id

module _ (ext : External) (settings : Settings) where
  unfoldable pub require_client_credentials_enabled : Exec Database Unit
  require_client_credentials_enabled =
      guard settings.client_credentials_enabled
        (http 503 "client_credentials grant is disabled (AUTH_CLIENT_CREDENTIALS_ENABLED=false)")

  unfoldable pub require_client_admin : Time → String → Exec Database User
  require_client_admin now token = do
    admin ← require_admin ext settings now token
    require_client_credentials_enabled
    pure admin

  abbrev pub account_view : ServiceAccount → Option String → ClientView
  account_view = service_account_to_dict ext.json

  -- What the creating handler does for an administrator.
  unfoldable pub create_for :
      FreshClient → Time → ServiceAccountCreate → User → Exec Database ClientView
  create_for fresh now req admin = do
    existing ← gets (λ db. count_clients_for_owner admin.id db.service_accounts)
    guard (not (leb settings.client_max_per_owner existing))
        (http 409 (limit_reached settings.client_max_per_owner))
    created ← on_accounts (
        create_client ext.bcrypt ext.json fresh admin.id req.name req.description req.scopes
          req.expires_at now)
    audit_as admin "create_service_account" (client_target created.0) now
    pure (account_view created.0 (some created.1))

  unfoldable pub create_service_account :
      FreshClient → Time → String → ServiceAccountCreate → Exec Database ClientView
  create_service_account fresh now token req = do
    admin ← require_client_admin now token
    create_for fresh now req admin

  unfoldable pub list_service_accounts : Time → String → Exec Database (List ClientView)
  list_service_accounts now token = do
    admin ← require_client_admin now token
    gets (λ db. map (λ a. account_view a none) (list_all_clients db.service_accounts))

  unfoldable pub get_service_account : Time → String → ℕ → Exec Database ClientView
  get_service_account now token client_pk = do
    admin ← require_client_admin now token
    account ← on_accounts (get_client_by_id client_pk)
    found_or (raise account_not_found) account λ a. pure (account_view a none)

  -- The fields that the request left out are those that the update leaves as they are.
  unfoldable pub update_service_account :
      Time → String → ℕ → ClientUpdate → Exec Database ClientView
  update_service_account now token client_pk req = do
    admin ← require_client_admin now token
    account ← on_accounts (update_client ext.json client_pk req now)
    found_or (raise account_not_found) account λ a. do
      audit_as admin "update_service_account" (client_target a) now
      pure (account_view a none)

  unfoldable pub rotate_service_account_secret :
      FreshClient → Time → String → ℕ → Exec Database ClientView
  rotate_service_account_secret fresh now token client_pk = do
    admin ← require_client_admin now token
    rotated ← on_accounts (rotate_secret ext.bcrypt fresh client_pk)
    found_or (raise account_not_found) rotated λ r. do
      audit_as admin "rotate_service_account" (client_target r.0) now
      pure (account_view r.0 (some r.1))

  unfoldable pub revoke_service_account : Time → String → ℕ → Exec Database Unit
  revoke_service_account now token client_pk = do
    admin ← require_client_admin now token
    account ← on_accounts (revoke_client client_pk now)
    found_or (raise account_not_found) account
        λ a. audit_as admin "revoke_service_account" (client_target a) now

  unfoldable pub list_signing_keys : Time → String → Exec Database (List KeyView)
  list_signing_keys now token = do
    admin ← require_admin ext settings now token
    gets (λ db. map signing_key_to_dict (order_desc (λ k. k.created_at) db.signing_keys.rows))

  unfoldable pub rotate_signing_key : FreshKey → Time → String → Exec Database KeyView
  rotate_signing_key fresh now token = do
    admin ← require_admin ext settings now token
    new_key ← on_keys (rotate_active_key fresh now)
    audit_as admin "rotate_signing_key" (Text.◌++◌ "kid=" new_key.kid) now
    pure (signing_key_to_dict new_key)

  unfoldable pub delete_signing_key : Time → String → String → Exec Database Unit
  delete_signing_key now token kid = do
    admin ← require_admin ext settings now token
    revoked ← on_keys (revoke_key kid now)
    found_or (raise (http 404 "Signing key not found")) revoked
        λ k. audit_as admin "revoke_signing_key" (Text.◌++◌ "kid=" kid) now
