-- ===== src/Accounts.antt =====
-- The handlers of main.py for registration, login, refresh, logout and revocation. `now` is the instant
-- of the request; `fresh` holds the random values it draws.
pub mod Traces
pub mod Login
pub mod Access
pub mod History
pub mod Logout
mod Tests
use accelerator_pack_auth_se.Prelude.{
  ℕ, ◌*◌, String, List, [], ◌∷◌, Bool, true, false, not, ◌&&◌, ◌||◌, Option, none, some, Result, ok,
  err, Error, http, integrity_error, value_error, key_error, ◌==◌, str_eq, any, select, length,
  is_some, if◌then◌else◌,
}
use accelerator_pack_auth_se.Exec.{
  Exec, found_or, pure, raise, lift, gets, modify, guard, zoom, ◌>>=◌, ◌>>◌,
}
use accelerator_pack_auth_se.Table.{Table, insert_row, scalar_one_or_none}
use accelerator_pack_auth_se.Models.{Time, seconds, Role, admin, pending, PrincipalType, failure}
use accelerator_pack_auth_se.Models.Rows.{User, RefreshToken, FailedLoginAttempt}
use accelerator_pack_auth_se.Models.Database.{Database}
use accelerator_pack_auth_se.External.{External, Bcrypt, Claims}
use accelerator_pack_auth_se.Config.{Settings}
use accelerator_pack_auth_se.Decimal.{str}
use accelerator_pack_auth_se.PackModels.Registry.{load_active_model}
use accelerator_pack_auth_se.ScopeString.{text_or_empty, parse_scope_string}
use accelerator_pack_auth_se.Scopes.{
  Grant, granted, invalid_scope, grant_scopes, resolve_effective_user_scopes,
}
use accelerator_pack_auth_se.Audit.{typed, log_audit}
use accelerator_pack_auth_se.Sessions.{
  Sessions, store_refresh_token, validate_refresh_token, revoke_token, revoke_user_tokens,
  enforce_session_limit,
}
use accelerator_pack_auth_se.Lockout.{
  Attempts, record_failed_login, check_account_lockout, clear_failed_attempts,
}
use accelerator_pack_auth_se.StrMethods.{remove_prefix}
use accelerator_pack_auth_se.Tokens.{
  FreshToken, active_user, unauthorized, on_audit, on_blacklist, create_access_token, decode_token,
  get_current_user, blacklist_token, find_user,
}

abbrev pub on_sessions : {A : Type 0} → Exec Sessions A → Exec Database A
on_sessions = zoom (λ d. d.refresh_tokens) (λ t d. record d { refresh_tokens = t })

abbrev pub on_attempts : {A : Type 0} → Exec Attempts A → Exec Database A
on_attempts = zoom (λ d. d.failed_login_attempts) (λ t d. record d { failed_login_attempts = t })

-- The random values of one request: those of a new access token, a new refresh token, and a salt.
pub record FreshLogin : Type 0 where
  pub access : FreshToken
  pub refresh_value : String
  pub salt : String

pub record LoginRequest : Type 0 where
  pub email : String
  pub password : String
  pub scope : Option String

pub record RegisterRequest : Type 0 where
  pub email : String
  pub name : String
  pub password : String

-- `token_type` is the constant `bearer`.
pub record TokenResponse : Type 0 where
  pub access_token : String
  pub refresh_token : String
  pub expires_in : ℕ
  pub user : User

unfoldable pub find_email : String → Exec Database (Option User)
find_email email db = (scalar_one_or_none (select (λ u. str_eq u.email email) db.users.rows), db)

-- The columns `email` and `id` are unique.
unfoldable pub add_user : (ℕ → User) → Exec Database User
add_user row db =
    if any (λ u. str_eq u.email (row 0).email) db.users.rows
    then (err integrity_error, db)
    else (ok (row db.users.next_id), record db { users = insert_row row db.users })

-- A `ValueError` is not caught here: `checkpw` raises it on a malformed hash.
unfoldable pub verify_password : Bcrypt → String → String → Result Bool
verify_password bcrypt password password_hash = elim (bcrypt.checkpw password password_hash) [
  | none ↦ err (value_error "checkpw")
  | some b ↦ ok b
]

-- `not user or not verify_password(…)`, negated.
unfoldable pub password_matches : Bcrypt → String → Option User → Result Bool
password_matches bcrypt password none = ok false
password_matches bcrypt password (some u) = verify_password bcrypt password u.password_hash

abbrev pub invalid_login : Error
invalid_login = unauthorized "Invalid email or password"

abbrev pub invalid_refresh : Error
invalid_refresh = unauthorized "Invalid or expired refresh token"

-- The detail of the answer is the object with `error` and `error_description`.
abbrev pub invalid_scope_error : String → Error
invalid_scope_error message = http 400 message

module _ (settings : Settings) where
  unfoldable pub require_local_auth : Exec Database Unit
  require_local_auth =
      guard settings.local_auth_enabled (http 403 "Local authentication is disabled. Use SSO.")

  abbrev pub build_token_response : String → String → User → TokenResponse
  build_token_response access_token refresh_token user = record {
    access_token = access_token;
    refresh_token = refresh_token;
    expires_in = settings.access_token_expire_minutes * 60;
    user = user;
  }

  -- The role of a new user, from the number of users there are.
  abbrev pub first_role : ℕ → Role
  first_role user_count =
      if user_count == 0 && settings.auto_admin_first_user then admin else pending

module _ (ext : External) (settings : Settings) where
  abbrev pub new_user : String → Role → RegisterRequest → Time → ℕ → User
  new_user salt role req now id = record {
    id = id;
    email = req.email;
    name = req.name;
    password_hash = ext.bcrypt.hashpw req.password salt;
    role = role;
    is_active = true;
    created_at = now;
    allowed_scopes = none;
  }

  -- A token pair for the user: the access token is minted, the refresh token stored.
  unfoldable pub issue_pair :
      FreshLogin → Time → User → Option (List String) → Exec Database TokenResponse
  issue_pair fresh now user scopes = do
    access_token ← create_access_token ext settings fresh.access now user scopes
    on_sessions (
        store_refresh_token ext.sha256 settings.refresh_token_expire_days user.id
          fresh.refresh_value now)
    pure (build_token_response settings access_token fresh.refresh_value user)

  unfoldable pub register : FreshLogin → Time → RegisterRequest → Exec Database TokenResponse
  register fresh now req = do
    require_local_auth settings
    existing ← find_email req.email
    guard (not (is_some existing)) (http 409 "Email already registered")
    user_count ← gets (λ db. length db.users.rows)
    user ← add_user (new_user fresh.salt (first_role settings user_count) req now)
    on_sessions (enforce_session_limit settings.max_concurrent_sessions user.id)
    issue_pair fresh now user none

  unfoldable pub deny_login : Time → User → Option String → String → Exec Database (List String)
  deny_login now user requested_scope message = do
    on_audit (
        log_audit (some user.id) "login_invalid_scope" (text_or_empty requested_scope)
          (typed PrincipalType.user) (some (str user.id)) (some failure) now)
    raise (invalid_scope_error message)

  unfoldable pub granted_or_denied :
      Time → User → Option String → Grant → Exec Database (List String)
  granted_or_denied now user requested_scope (granted scopes) = pure scopes
  granted_or_denied now user requested_scope (invalid_scope message) =
      deny_login now user requested_scope message

  unfoldable pub grant_user_scopes : Time → User → Option String → Exec Database (List String)
  unfolding granted_or_denied
  grant_user_scopes now user requested_scope = do
    allowed ←
        gets
          (λ db. resolve_effective_user_scopes ext.json db user (load_active_model settings.pack))
    granted_or_denied now user requested_scope
        (grant_scopes allowed (parse_scope_string requested_scope) settings.strict_scopes)

  unfoldable pub refuse_login : Option String → Time → String → Exec Database User
  refuse_login ip now email = do on_attempts (record_failed_login email ip now); raise invalid_login

  -- The user whose password was given, or the refusal.
  unfoldable pub check_password : Option String → Time → LoginRequest → Exec Database User
  check_password ip now req = do
    found ← find_email req.email
    matches ← lift (password_matches ext.bcrypt req.password found)
    let refused = refuse_login ip now req.email
    if matches then found_or refused found pure else refused

  unfoldable pub login :
      FreshLogin → Option String → Time → LoginRequest → Exec Database TokenResponse
  login fresh ip now req = do
    require_local_auth settings
    on_attempts (
        check_account_lockout settings.account_lockout_threshold
          settings.account_lockout_duration_minutes req.email now)
    user ← check_password ip now req
    guard user.is_active (http 403 "Account is deactivated")
    on_attempts (clear_failed_attempts req.email)
    on_sessions (enforce_session_limit settings.max_concurrent_sessions user.id)
    granted_scopes ← grant_user_scopes now user req.scope
    issue_pair fresh now user (some granted_scopes)

  unfoldable pub rotate_session : FreshLogin → Time → RefreshToken → Exec Database TokenResponse
  rotate_session fresh now stored = do
    on_sessions (revoke_token stored)
    found ← find_user stored.user_id
    user ← lift (active_user found)
    issue_pair fresh now user none

  unfoldable pub refresh_token : FreshLogin → Time → String → Exec Database TokenResponse
  refresh_token fresh now token = do
    stored ← on_sessions (validate_refresh_token ext.sha256 token now)
    found_or (raise invalid_refresh) stored (rotate_session fresh now)

  -- `payload["exp"]`
  abbrev pub read_exp : Option ℕ → Result Time
  read_exp none = err (key_error "exp")
  read_exp (some exp) = ok (seconds exp)

  -- The token's claims are blacklisted until they expire; without a jti there is nothing to list.
  unfoldable pub blacklist_claims : Time → Claims → Exec Database Unit → Exec Database Unit
  blacklist_claims now payload missing =
      let listed = lift (read_exp payload.exp) >>= λ exp.
      on_blacklist (blacklist_token (text_or_empty payload.jti) exp now) in
      if str_eq (text_or_empty payload.jti) "" then missing else listed

  -- `if token: …` of the logout handler.
  unfoldable pub blacklist_own : Time → String → Exec Database Unit
  blacklist_own now token =
      let listed =
        decode_token ext settings now token >>= λ payload. blacklist_claims now payload (pure tt) in
      if str_eq token "" then pure tt else listed

  -- `credentials` is the token that the bearer dependency takes out of the header `authorization`.
  unfoldable pub logout : Time → String → String → Exec Database Unit
  logout now credentials authorization = do
    user ← get_current_user ext settings now credentials
    blacklist_own now (remove_prefix "Bearer " authorization)
    on_sessions (revoke_user_tokens user.id)

  unfoldable pub revoke_access_token : Time → String → String → Exec Database Unit
  revoke_access_token now caller token = do
    user ← get_current_user ext settings now caller
    payload ← decode_token ext settings now token
    blacklist_claims now payload (raise (http 400 "Token has no JTI"))
