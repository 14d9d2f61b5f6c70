-- ===== src/Accounts/Access.antt =====
-- What a caller has shown when the login handler gives out tokens.
use accelerator_pack_auth_se.Prelude.{
  String, List, ◌≡◌, refl, ap, sym, ◌∙◌, Bool, true, false, Option, none, some, Result, ok, err,
  Error, http, arith, subst, if◌then◌else◌, ok-injective,
}
use accelerator_pack_auth_se.Exec.{
  IsReader, bind-returns, bind-ok, guard-ok, found_or, guard, lift, pure,
}
use accelerator_pack_auth_se.Models.{Time}
use accelerator_pack_auth_se.Models.Rows.{User, SigningKey}
use accelerator_pack_auth_se.Models.Database.{Database}
use accelerator_pack_auth_se.External.{External}
use accelerator_pack_auth_se.Config.{Settings}
use accelerator_pack_auth_se.PackModels.Registry.{load_active_model}
use accelerator_pack_auth_se.ScopeString.{parse_scope_string}
use accelerator_pack_auth_se.Scopes.{
  Grant, granted, invalid_scope, grant_scopes, resolve_effective_user_scopes,
  fetch_user_role_permissions, assigned_permissions,
}
use accelerator_pack_auth_se.Audit.{log_audit}
use accelerator_pack_auth_se.Lockout.{
  Attempts, locked, record_failed_login, check_account_lockout, clear_failed_attempts,
}
use accelerator_pack_auth_se.Sessions.{store_refresh_token, enforce_session_limit}
use accelerator_pack_auth_se.Tokens.{
  FreshToken, user_claims, token_header, on_keys, create_access_token,
}
use accelerator_pack_auth_se.Keys.{get_active_signing_key}
use accelerator_pack_auth_se.Accounts.{
  FreshLogin, LoginRequest, TokenResponse, on_attempts, on_sessions, find_email, password_matches,
  verify_password, require_local_auth, check_password, refuse_login, grant_user_scopes,
  granted_or_denied, deny_login, issue_pair, login,
}
use accelerator_pack_auth_se.Accounts.Login.{is_locked}

module _ (ext : External) (settings : Settings) where
  not_ok : {A : Type 0} {e : Error} {a : A} → err e ≡ ok a → ⊥
  not_ok h = cc

  passed :
      (ip : Option String) (now : Time) (req : LoginRequest) (db : Database) (user : User)
      (found : Option User) (matches : Bool)
      → ((if matches
            then found_or (refuse_login ext settings ip now req.email) found pure
            else refuse_login ext settings ip now req.email)
          db).0
        ≡ ok user
      → (found ≡ some user) × (matches ≡ true)
  unfolding refuse_login record_failed_login
  passed ip now req db user (some u) true h = (ap some (ok-injective _ _ h), refl)
  passed ip now req db user none true h = absurd (not_ok h)
  passed ip now req db user found false h = absurd (not_ok h)

  check_password-ok :
      (ip : Option String) (now : Time) (req : LoginRequest) (db : Database) (user : User)
      → (check_password ext settings ip now req db).0 ≡ ok user
      → ((find_email req.email db).0 ≡ ok (some user))
        × (password_matches ext.bcrypt req.password (some user) ≡ ok true)
        × ((check_password ext settings ip now req db).1 ≡ db)
  unfolding check_password find_email refuse_login
  check_password-ok ip now req db user h =
      let (found, row, h1) = bind-ok (find_email req.email) _ db user (λ d. refl) h in
      let (matches, right, h2) =
        bind-ok (lift (password_matches ext.bcrypt req.password found)) _ db user (λ d. refl) h1 in
      let (same, accepted) = passed ip now req db user found matches h2 in
      let row' = row ∙ ap ok same in
      let right' =
        subst (λ f. password_matches ext.bcrypt req.password f ≡ ok true) same
          (right ∙ ap ok accepted) in
      (row', right', rw (row', right') refl)

  create_access_token-ok :
      (fresh : FreshToken) (now : Time) (user : User) (scopes : List String) (db : Database)
      (token : String)
      → (create_access_token ext settings fresh now user (some scopes) db).0 ≡ ok token
      → (key : SigningKey) × ((get_active_signing_key fresh.key now db.signing_keys).0 ≡ ok key)
        × (token
            ≡ ext.jwt.encode
                (user_claims settings user scopes fresh.jti now)
                key.private_pem
                (token_header key))
  unfolding create_access_token
  create_access_token-ok fresh now user scopes db token h =
      let (key, signing, h1) =
        bind-returns (on_keys (get_active_signing_key fresh.key now)) _ db token h in
      (key, signing, sym (ok-injective _ _ h1))

  issue_pair-ok :
      (fresh : FreshLogin) (now : Time) (user : User) (scopes : List String) (db : Database)
      (response : TokenResponse)
      → (issue_pair ext settings fresh now user (some scopes) db).0 ≡ ok response
      → (response.user ≡ user)
        × (response.refresh_token ≡ fresh.refresh_value)
        × ((key : SigningKey) × ((get_active_signing_key fresh.access.key now db.signing_keys).0
              ≡ ok key)
            × (response.access_token
                ≡ ext.jwt.encode
                    (user_claims settings user scopes fresh.access.jti now)
                    key.private_pem
                    (token_header key)))
  unfolding issue_pair
  issue_pair-ok fresh now user scopes db response h =
      let (token, minted, h1) =
        bind-returns (create_access_token ext settings fresh.access now user (some scopes)) _ db
          response h in
      let (done, stored, h2) =
        bind-returns
          (on_sessions (
            store_refresh_token ext.sha256 settings.refresh_token_expire_days user.id
              fresh.refresh_value now))
          _ _ response h1 in
      let same = ok-injective _ _ h2 in
      let (key, signing, encoded) =
        create_access_token-ok fresh.access now user scopes db token minted in
      (
        sym (ap (λ r. r.user) same),
        sym (ap (λ r. r.refresh_token) same),
        (key, signing, sym (ap (λ r. r.access_token) same) ∙ encoded),
      )

  lockout-ok :
      (now : Time) (email : String) (db : Database) (done : Unit)
      → (on_attempts
          (check_account_lockout settings.account_lockout_threshold
            settings.account_lockout_duration_minutes email now)
          db).0
        ≡ ok done
      → is_locked ext settings now email db.failed_login_attempts ≡ false
  unfolding check_account_lockout
  lockout-ok now email db done h = ground arith

  lockout-IsReader :
      (now : Time) (email : String)
      → IsReader (
          on_attempts (
            check_account_lockout settings.account_lockout_threshold
              settings.account_lockout_duration_minutes email now))
  unfolding check_account_lockout
  lockout-IsReader now email db =
      ap (λ t. record db { failed_login_attempts = t })
        (same (is_locked ext settings now email db.failed_login_attempts) db.failed_login_attempts)
    where
      same :
          (b : Bool) (t : Attempts)
          → (if◌then◌else◌ {A = Result (Unit {0}) × Attempts} b (err locked, t) (ok tt, t)).1 ≡ t
      same true t = refl
      same false t = refl

  -- The user was found by the email, the password accepted, and neither the email locked nor the user
  -- deactivated; the answer is about that user, with the new refresh token, and its access token is
  -- minted for the scopes that the request is granted out of the user's effective scopes.
  pub record IsLogin (fresh : FreshLogin) (now : Time) (req : LoginRequest) (db : Database)
      (response : TokenResponse) : Type 0 where
    user : User
    enabled : settings.local_auth_enabled ≡ true
    unlocked : is_locked ext settings now req.email db.failed_login_attempts ≡ false
    known : (find_email req.email db).0 ≡ ok (some user)
    right : verify_password ext.bcrypt req.password user.password_hash ≡ ok true
    active : user.is_active ≡ true
    scopes : List String
    within :
        grant_scopes
          (resolve_effective_user_scopes ext.json db user (load_active_model settings.pack))
          (parse_scope_string req.scope)
          settings.strict_scopes
        ≡ granted scopes
    same_user : response.user ≡ user
    same_token : response.refresh_token ≡ fresh.refresh_value
    key : SigningKey
    signing : (get_active_signing_key fresh.access.key now db.signing_keys).0 ≡ ok key
    minted :
        response.access_token
        ≡ ext.jwt.encode
            (user_claims settings user scopes fresh.access.jti now)
            key.private_pem
            (token_header key)

  granted-ok :
      (now : Time) (user : User) (scope : Option String) (db : Database) (scopes : List String)
      → (grant_user_scopes ext settings now user scope db).0 ≡ ok scopes
      → (grant_scopes
            (resolve_effective_user_scopes ext.json db user (load_active_model settings.pack))
            (parse_scope_string scope)
            settings.strict_scopes
          ≡ granted scopes)
        × ((grant_user_scopes ext settings now user scope db).1 ≡ db)
  unfolding grant_user_scopes granted_or_denied deny_login log_audit
  granted-ok now user scope db scopes h =
      go
        (grant_scopes
          (resolve_effective_user_scopes ext.json db user (load_active_model settings.pack))
          (parse_scope_string scope) settings.strict_scopes)
        h
    where
      go :
          (g : Grant)
          → (granted_or_denied ext settings now user scope g db).0 ≡ ok scopes
          → (g ≡ granted scopes) × ((granted_or_denied ext settings now user scope g db).1 ≡ db)
      go (granted s) h = (ap granted (ok-injective _ _ h), refl)
      go (invalid_scope message) h = cc

  -- The login handler gives out tokens only where local login is enabled, the email is not locked
  -- at that instant, the email names a user whose password hash accepts the password, and that
  -- user is active; the answer is about that user, its access token carries the scopes that are
  -- granted to the request out of the user's effective ones, and is signed with the active key.
  pub login-ok :
      (fresh : FreshLogin) (ip : Option String) (now : Time) (req : LoginRequest) (db : Database)
      (response : TokenResponse)
      → (login ext settings fresh ip now req db).0 ≡ ok response
      → IsLogin fresh now req db response
  unfolding login require_local_auth password_matches resolve_effective_user_scopes
      fetch_user_role_permissions assigned_permissions
  login-ok fresh ip now req db response h =
      let (u1, enabled, h1) = bind-ok (require_local_auth settings) _ db response (λ d. refl) h in
      let (u2, unlocked, h2) =
        bind-ok
          (on_attempts (
            check_account_lockout settings.account_lockout_threshold
              settings.account_lockout_duration_minutes req.email now))
          _ db response (lockout-IsReader now req.email) h1 in
      let (user, matched, h3) =
        bind-returns (check_password ext settings ip now req) _ db response h2 in
      let (known, right, same) = check_password-ok ip now req db user matched in
      let (u3, active, h4) =
        bind-returns (guard user.is_active (http 403 "Account is deactivated")) _ _ response h3 in
      let (u4, cleared, h5) =
        bind-returns (on_attempts (clear_failed_attempts req.email)) _ _ response h4 in
      let (u5, limited, h6) =
        bind-returns (on_sessions (enforce_session_limit settings.max_concurrent_sessions user.id))
          _ _ response h5 in
      let (scopes, within, h7) =
        bind-returns (grant_user_scopes ext settings now user req.scope) _ _ response h6 in
      let (effective, kept) = granted-ok now user req.scope _ scopes within in
      let (same_user, same_token, (key, signing, minted)) =
        issue_pair-ok fresh now user scopes _ response h7 in
      record {
        user = user;
        enabled =
            guard-ok settings.local_auth_enabled
              (http 403 "Local authentication is disabled. Use SSO.") db u1 enabled;
        unlocked = lockout-ok now req.email db u2 unlocked;
        known = known;
        right = right;
        active = guard-ok user.is_active (http 403 "Account is deactivated") db u3 active;
        scopes = scopes;
        within =
            subst
              (λ d.
                grant_scopes
                  (resolve_effective_user_scopes ext.json d user (load_active_model settings.pack))
                  (parse_scope_string req.scope) settings.strict_scopes
                ≡ granted scopes)
              same effective;
        same_user = same_user;
        same_token = same_token;
        key = key;
        signing =
            subst (λ t. (get_active_signing_key fresh.access.key now t).0 ≡ ok key)
              (ap (λ d. d.signing_keys) kept ∙ ap (λ d. d.signing_keys) same) signing;
        minted = minted;
      }
