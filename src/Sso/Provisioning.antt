-- ===== src/Sso/Provisioning.antt =====
-- `jit_provision_user` and `issue_sso_tokens` of sso_service.py. `email` and `name` are claims, and so
-- values of any type.
pub mod Made
pub mod Linked
pub mod Users
use accelerator_pack_auth_se.Prelude.{if◌then◌else◌}
use accelerator_pack_auth_se.Prelude.{
  ℕ, String, List, Bool, true, false, ◌&&◌, Option, none, some, Result, ok, err, Error,
  integrity_error, multiple_results_found, no_result_found, data_error, ◌==◌, str_eq, select,
}
use accelerator_pack_auth_se.Exec.{Exec, found_or, pure, lift, gets, modify, zoom, ◌>>=◌, ◌>>◌}
use accelerator_pack_auth_se.Table.{Table, insert_row, update_where}
use accelerator_pack_auth_se.Values.{truthy, str_of, get, Value, null, text, Dict}
use accelerator_pack_auth_se.Models.{Time, Role}
use accelerator_pack_auth_se.Models.Rows.{User}
use accelerator_pack_auth_se.Models.Federation.{IdentityProvider, ExternalIdentity}
use accelerator_pack_auth_se.Models.Database.{Database}
use accelerator_pack_auth_se.External.{External}
use accelerator_pack_auth_se.Config.{Settings}
use accelerator_pack_auth_se.Queries.{one_where}
use accelerator_pack_auth_se.Sessions.{store_refresh_token}
use accelerator_pack_auth_se.Tokens.{create_access_token}
use accelerator_pack_auth_se.Accounts.{FreshLogin, on_sessions, find_email, add_user}

-- A value that is written to a text column that may not be NULL.
abbrev pub column_text : Value → Result String
column_text null = err integrity_error
column_text (text s) = ok s
column_text _ = err data_error

-- `User.email == email`: NULL is compared by `IS NULL`, which no row passes.
abbrev pub find_by_email : Value → Exec Database (Option User)
find_by_email null = pure none
find_by_email (text s) = find_email s
find_by_email _ = lift (err data_error)

-- `scalar_one`: the one row of a result.
abbrev pub scalar_one : {A : Type 0} → List A → Result A
scalar_one List.[] = err no_result_found
scalar_one (List.◌∷◌ x List.[]) = ok x
scalar_one (List.◌∷◌ x (List.◌∷◌ y rest)) = err multiple_results_found

abbrev pub is_link : ℕ → String → ExternalIdentity → Bool
is_link provider_id external_id l = l.provider_id == provider_id && str_eq l.external_id external_id

abbrev pub touch_link : Option Dict → Time → ExternalIdentity → ExternalIdentity
touch_link raw_claims now l = record l { last_login_at = some now; raw_claims = raw_claims }

abbrev pub save_link :
    (ExternalIdentity → Bool) → (ExternalIdentity → ExternalIdentity) → Database → Database
save_link test f db = record db {
  external_identities = record (db.external_identities) {
    rows = update_where test f db.external_identities.rows;
  };
}

abbrev pub sso_user : String → String → Time → ℕ → User
sso_user email name now id = record {
  id = id;
  email = email;
  name = name;
  password_hash = "!sso-only";
  role = Role.user;
  is_active = true;
  created_at = now;
  allowed_scopes = none;
}

-- The user with the email, or a new one; with it, whether it is new.
unfoldable pub find_or_create : Value → Value → Time → Exec Database (User × Bool)
find_or_create email name now = do
  found ← find_by_email email
  let create = lift (column_text email) >>= λ email_text. lift (column_text name) >>= λ name_text.
      add_user (sso_user email_text name_text now) >>= λ user. pure (user, true)
  found_or create found λ user. pure (user, false)

abbrev pub new_link : ℕ → ℕ → String → String → Option Dict → Time → ℕ → ExternalIdentity
new_link user_id provider_id external_id email raw_claims now id = record {
  id = id;
  user_id = user_id;
  provider_id = provider_id;
  external_id = external_id;
  email = some email;
  raw_claims = raw_claims;
  last_login_at = some now;
}

abbrev pub add_link : (ℕ → ExternalIdentity) → Database → Database
add_link row db = record db { external_identities = insert_row row db.external_identities }

-- The link of a user that was found by email or is new: its email is a text.
unfoldable pub link_user :
    ℕ → String → Value → Value → Option Dict → Time → Exec Database (User × Bool)
link_user provider_id external_id email name raw_claims now = do
  made ← find_or_create email name now
  email_text ← lift (column_text email)
  modify (add_link (new_link made.0.id provider_id external_id email_text raw_claims now))
  pure made

-- The user of a link that is there.
unfoldable pub linked_user :
    ℕ → String → Option Dict → Time → ExternalIdentity → Exec Database (User × Bool)
linked_user provider_id external_id raw_claims now link = do
  modify (save_link (is_link provider_id external_id) (touch_link raw_claims now))
  user ← λ db. (scalar_one (select (λ u. u.id == link.user_id) db.users.rows), db)
  pure (user, false)

unfoldable pub jit_provision_user :
    ℕ → String → Value → Value → Option Dict → Time → Exec Database (User × Bool)
jit_provision_user provider_id external_id email name raw_claims now = do
  link ← one_where (λ db. db.external_identities) (is_link provider_id external_id)
  found_or (link_user provider_id external_id email name raw_claims now) link
      (linked_user provider_id external_id raw_claims now)

module _ (ext : External) (settings : Settings) where
  unfoldable pub issue_sso_tokens : FreshLogin → Time → User → Exec Database (String × String)
  issue_sso_tokens fresh now user = do
    access_token ← create_access_token ext settings fresh.access now user none
    on_sessions (
        store_refresh_token ext.sha256 settings.refresh_token_expire_days user.id
          fresh.refresh_value now)
    pure (access_token, fresh.refresh_value)

-- The first of the claims that has a value, by its `str`.
unfoldable pub first_claim : List String → Dict → String
first_claim List.[] claims = ""
first_claim (List.◌∷◌ key keys) claims =
    let rest = first_claim keys claims in
    if truthy (get claims key) then str_of (get claims key) else rest

unfoldable pub select_external_id : Dict → String
unfolding first_claim
select_external_id claims =
    first_claim (List.◌∷◌ "oid" (List.◌∷◌ "user_id" (List.◌∷◌ "sub" List.[]))) claims
