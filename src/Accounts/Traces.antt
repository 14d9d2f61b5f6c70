-- ===== src/Accounts/Traces.antt =====
-- What the handlers do to the refresh tokens: each of them makes a sequence of the calls of auth.py,
-- on every path, errors included.
pub mod Entry
use accelerator_pack_auth_se.Prelude.{
  ℕ, String, List, [], ◌∷◌, ◌++◌, ◌≡◌, refl, ap, sym, ◌∙◌, Bool, true, false, Option, none, some,
  Result, ok, err, http, integrity_error, str_eq, length, any, if◌then◌else◌,
}
use accelerator_pack_auth_se.Exec.{Exec, continue, found_or, guard, lift, raise, gets, ◌>>=◌}
use accelerator_pack_auth_se.Models.{Time}
use accelerator_pack_auth_se.Models.Rows.{User, RefreshToken}
use accelerator_pack_auth_se.Models.Database.{Database}
use accelerator_pack_auth_se.External.{External}
use accelerator_pack_auth_se.Config.{Settings}
use accelerator_pack_auth_se.ScopeString.{parse_scope_string}
use accelerator_pack_auth_se.Table.{insert_row}
use accelerator_pack_auth_se.Scopes.{Grant, grant_scopes, granted, invalid_scope}
use accelerator_pack_auth_se.Sessions.{
  Sessions, store_refresh_token, validate_refresh_token, revoke_token, enforce_session_limit,
}
use accelerator_pack_auth_se.Sessions.Spent.{Call, store, enforce, revoke_one, step, run}
use accelerator_pack_auth_se.Audit.{log_audit}
use accelerator_pack_auth_se.Lockout.{
  record_failed_login, check_account_lockout, clear_failed_attempts,
}
use accelerator_pack_auth_se.Keys.{get_active_signing_key}
use accelerator_pack_auth_se.Tokens.{on_keys, active_user, find_user, create_access_token}
use accelerator_pack_auth_se.Accounts.{
  FreshLogin, TokenResponse, LoginRequest, RegisterRequest, on_sessions, on_attempts, issue_pair,
  rotate_session, refresh_token, login, register, add_user, find_email, new_user, first_role,
  password_matches, invalid_refresh, require_local_auth, check_password, refuse_login,
  grant_user_scopes, granted_or_denied, deny_login,
}

module _ (ext : External) (settings : Settings) where
  abbrev pub run_sessions : Sessions → List Call → Sessions
  run_sessions = run ext.sha256 settings.max_concurrent_sessions settings.refresh_token_expire_days

  pub run-append :
      (cs ds : List Call) (t : Sessions)
      → run_sessions t (cs ++ ds) ≡ run_sessions (run_sessions t cs) ds
  unfolding run
  run-append [] ds t = refl
  run-append (c ∷ cs) ds t = run-append cs ds _

  -- The call leaves the refresh tokens as a sequence of calls on them does.
  -- On every path, the call changes the refresh tokens by a sequence of the calls on their table.
  pub record IsTraced {A : Type 0} (m : Exec Database A) : Type 0 where
    pub calls : Database → List Call
    pub follows :
        (db : Database) → (m db).1.refresh_tokens ≡ run_sessions db.refresh_tokens (calls db)

  pub apart :
      {A : Type 0} {m : Exec Database A}
      → ((db : Database) → (m db).1.refresh_tokens ≡ db.refresh_tokens)
      → IsTraced m
  unfolding run
  apart h = record { calls = λ db. []; follows = h }

  pub one_call :
      {A : Type 0} {m : Exec Database A} (c : Call)
      → ((db : Database) → (m db).1.refresh_tokens ≡ run_sessions db.refresh_tokens (c ∷ []))
      → IsTraced m
  one_call c h = record { calls = λ db. c ∷ []; follows = h }

  then_calls : {A : Type 0} → Result A → (A → Database → List Call) → Database → List Call
  then_calls (ok a) cs db = cs a db
  then_calls (err e) cs db = []

  continue-follows :
      {A B : Type 0} (r : Result A) (f : A → Exec Database B) (hf : (a : A) → IsTraced (f a))
      (db : Database)
      → (continue r f db).1.refresh_tokens
        ≡ run_sessions db.refresh_tokens (then_calls r (λ a. (hf a).calls) db)
  unfolding run then_calls
  continue-follows (ok a) f hf db = (hf a).follows db
  continue-follows (err e) f hf db = refl

  pub bind-IsTraced :
      {A B : Type 0} (m : Exec Database A) (f : A → Exec Database B)
      → IsTraced m
      → ((a : A) → IsTraced (f a))
      → IsTraced (m >>= f)
  bind-IsTraced m f hm hf = record {
    calls = λ db. hm.calls db ++ then_calls (m db).0 (λ a. (hf a).calls) (m db).1;
    follows = λ db.
        continue-follows (m db).0 f hf (m db).1
        ∙ ap (λ t. run_sessions t (then_calls (m db).0 (λ a. (hf a).calls) (m db).1))
            (hm.follows db)
        ∙ sym (
            run-append (hm.calls db) (then_calls (m db).0 (λ a. (hf a).calls) (m db).1)
              db.refresh_tokens);
  }

  create_access_token-IsTraced :
      (fresh : FreshLogin) (now : Time) (user : User) (scopes : Option (List String))
      → IsTraced (create_access_token ext settings fresh.access now user scopes)
  unfolding create_access_token run
  create_access_token-IsTraced fresh now user scopes =
      bind-IsTraced (on_keys (get_active_signing_key fresh.access.key now)) _ (apart λ db. refl)
        λ key. apart λ db. refl

  pub issue_pair-IsTraced :
      (fresh : FreshLogin) (now : Time) (user : User) (scopes : Option (List String))
      → IsTraced (issue_pair ext settings fresh now user scopes)
  unfolding issue_pair run step
  issue_pair-IsTraced fresh now user scopes =
      bind-IsTraced (create_access_token ext settings fresh.access now user scopes) _
        (create_access_token-IsTraced fresh now user scopes)
        λ token.
          bind-IsTraced
            (on_sessions (
              store_refresh_token ext.sha256 settings.refresh_token_expire_days user.id
                fresh.refresh_value now))
            _ (one_call (store user.id fresh.refresh_value now) λ db. refl) λ done. apart λ db. refl

  -- What the refresh handler does once the token is revoked.
  abbrev after_revocation : FreshLogin → Time → RefreshToken → Exec Database TokenResponse
  after_revocation fresh now stored = do
    found ← find_user stored.user_id
    user ← lift (active_user found)
    issue_pair ext settings fresh now user none

  after_revocation-IsTraced :
      (fresh : FreshLogin) (now : Time) (stored : RefreshToken)
      → IsTraced (after_revocation fresh now stored)
  unfolding find_user
  after_revocation-IsTraced fresh now stored =
      bind-IsTraced (find_user stored.user_id) _ (apart λ db. refl) λ found.
        bind-IsTraced (lift (active_user found)) _ (apart λ db. refl)
          λ user. issue_pair-IsTraced fresh now user none

  rotate_session-IsTraced :
      (fresh : FreshLogin) (now : Time) (stored : RefreshToken)
      → IsTraced (rotate_session ext settings fresh now stored)
  unfolding rotate_session run step
  rotate_session-IsTraced fresh now stored =
      bind-IsTraced (on_sessions (revoke_token stored)) _ (one_call (revoke_one stored) λ db. refl)
        λ done. after_revocation-IsTraced fresh now stored

  -- A valid token is revoked, and what follows is a sequence of calls again.
  pub refresh_token-valid :
      (fresh : FreshLogin) (now : Time) (token : String) (db : Database) (stored : RefreshToken)
      → (validate_refresh_token ext.sha256 token now db.refresh_tokens).0 ≡ ok (some stored)
      → (cs : List Call) × ((refresh_token ext settings fresh now token db).1.refresh_tokens
          ≡ run_sessions (revoke_token stored db.refresh_tokens).1 cs)
  unfolding refresh_token rotate_session validate_refresh_token revoke_token
  refresh_token-valid fresh now token db stored h =
      let db' = record db { refresh_tokens = (revoke_token stored db.refresh_tokens).1 } in
      let traced = after_revocation-IsTraced fresh now stored in
      (traced.calls db', rw h (traced.follows db'))

  pub found_or-IsTraced :
      {A B : Type 0} (m : Exec Database B) (found : Option A) (f : A → Exec Database B)
      → IsTraced m
      → ((a : A) → IsTraced (f a))
      → IsTraced (found_or m found f)
  found_or-IsTraced m none f hm hf = hm
  found_or-IsTraced m (some a) f hm hf = hf a

  pub if-IsTraced :
      {A : Type 0} (b : Bool) (m n : Exec Database A)
      → IsTraced m
      → IsTraced n
      → IsTraced (if b then m else n)
  if-IsTraced true m n hm hn = hm
  if-IsTraced false m n hm hn = hn

  pub refresh_token-IsTraced :
      (fresh : FreshLogin) (now : Time) (token : String)
      → IsTraced (refresh_token ext settings fresh now token)
  unfolding refresh_token run validate_refresh_token
  refresh_token-IsTraced fresh now token =
      bind-IsTraced (on_sessions (validate_refresh_token ext.sha256 token now)) _ (apart λ db. refl)
        λ stored.
          found_or-IsTraced (raise invalid_refresh) stored _ (apart λ db. refl)
            (rotate_session-IsTraced fresh now)
