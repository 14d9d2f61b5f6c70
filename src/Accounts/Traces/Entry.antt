-- ===== src/Accounts/Traces/Entry.antt =====
-- The handlers that let a caller in, registration and login: what they do to the refresh tokens.
use accelerator_pack_auth_se.Prelude.{
  ℕ, String, ◌≡◌, refl, Bool, true, false, Option, none, some, Result, ok, err, http,
  integrity_error, str_eq, length, any, if◌then◌else◌,
}
use accelerator_pack_auth_se.Exec.{guard, lift, gets}
use accelerator_pack_auth_se.Models.{Time}
use accelerator_pack_auth_se.Models.Rows.{User}
use accelerator_pack_auth_se.Models.Database.{Database}
use accelerator_pack_auth_se.External.{External}
use accelerator_pack_auth_se.Config.{Settings}
use accelerator_pack_auth_se.ScopeString.{parse_scope_string}
use accelerator_pack_auth_se.Table.{insert_row}
use accelerator_pack_auth_se.Scopes.{Grant, grant_scopes, granted, invalid_scope}
use accelerator_pack_auth_se.Sessions.{enforce_session_limit}
use accelerator_pack_auth_se.Sessions.Spent.{enforce, step, run}
use accelerator_pack_auth_se.Audit.{log_audit}
use accelerator_pack_auth_se.Lockout.{
  record_failed_login, check_account_lockout, clear_failed_attempts,
}
use accelerator_pack_auth_se.Accounts.{
  FreshLogin, LoginRequest, RegisterRequest, on_sessions, on_attempts, login, register, add_user,
  find_email, new_user, first_role, password_matches, require_local_auth, check_password,
  refuse_login, grant_user_scopes, granted_or_denied, deny_login,
}
use accelerator_pack_auth_se.Accounts.Traces.{
  IsTraced, apart, one_call, bind-IsTraced, found_or-IsTraced, if-IsTraced, issue_pair-IsTraced,
}

module _ (ext : External) (settings : Settings) where
  add_user-IsTraced : (row : ℕ → User) → IsTraced ext settings (add_user row)
  unfolding add_user
  add_user-IsTraced row =
      apart ext settings {m = add_user row}
        λ db. same (any (λ u. str_eq u.email (row 0).email) db.users.rows) db
    where
      same :
          (b : Bool) (db : Database)
          → (if◌then◌else◌ {A = Result User × Database} b
              (err integrity_error, db)
              (
                ok (row db.users.next_id),
                record db { users = insert_row row db.users },
              )).1.refresh_tokens
            ≡ db.refresh_tokens
      same true db = refl
      same false db = refl

  pub register-IsTraced :
      (fresh : FreshLogin) (now : Time) (req : RegisterRequest)
      → IsTraced ext settings (register ext settings fresh now req)
  unfolding register require_local_auth find_email run step
  register-IsTraced fresh now req =
      bind-IsTraced ext settings (require_local_auth settings) _ (apart ext settings λ db. refl)
        λ enabled.
          bind-IsTraced ext settings (find_email req.email) _ (apart ext settings λ db. refl)
            λ existing.
              bind-IsTraced ext settings (guard _ _) _ (apart ext settings λ db. refl) λ new.
                bind-IsTraced ext settings (gets (λ db. length db.users.rows)) _
                  (apart ext settings λ db. refl)
                  λ user_count.
                    bind-IsTraced ext settings
                      (add_user
                        (new_user ext settings fresh.salt (first_role settings user_count) req now))
                      _ (add_user-IsTraced _)
                      λ user.
                        bind-IsTraced ext settings
                          (on_sessions
                            (enforce_session_limit settings.max_concurrent_sessions user.id))
                          _ (one_call ext settings (enforce user.id) λ db. refl)
                          λ done. issue_pair-IsTraced ext settings fresh now user none

  check_password-IsTraced :
      (ip : Option String) (now : Time) (req : LoginRequest)
      → IsTraced ext settings (check_password ext settings ip now req)
  unfolding check_password find_email refuse_login record_failed_login
  check_password-IsTraced ip now req =
      bind-IsTraced ext settings (find_email req.email) _ (apart ext settings λ db. refl) λ found.
        bind-IsTraced ext settings (lift (password_matches ext.bcrypt req.password found)) _
          (apart ext settings λ db. refl)
          λ matches.
            if-IsTraced ext settings matches _ _
              (found_or-IsTraced ext settings _ found _ (refused-IsTraced ip now req.email)
                λ user. apart ext settings λ db. refl)
              (refused-IsTraced ip now req.email)
    where
      refused-IsTraced :
          (ip : Option String) (now : Time) (email : String)
          → IsTraced ext settings (refuse_login ext settings ip now email)
      refused-IsTraced ip now email = apart ext settings λ db. refl

  grant_user_scopes-IsTraced :
      (now : Time) (user : User) (scope : Option String)
      → IsTraced ext settings (grant_user_scopes ext settings now user scope)
  unfolding grant_user_scopes granted_or_denied deny_login log_audit
  grant_user_scopes-IsTraced now user scope =
      bind-IsTraced ext settings (gets _) _ (apart ext settings λ db. refl)
        λ allowed. by_grant (grant_scopes allowed (parse_scope_string scope) settings.strict_scopes)
    where
      by_grant :
          (g : Grant) → IsTraced ext settings (granted_or_denied ext settings now user scope g)
      by_grant (granted scopes) = apart ext settings λ db. refl
      by_grant (invalid_scope message) = apart ext settings λ db. refl

  pub login-IsTraced :
      (fresh : FreshLogin) (ip : Option String) (now : Time) (req : LoginRequest)
      → IsTraced ext settings (login ext settings fresh ip now req)
  unfolding login require_local_auth clear_failed_attempts run step
  login-IsTraced fresh ip now req =
      bind-IsTraced ext settings (require_local_auth settings) _ (apart ext settings λ db. refl)
        λ enabled.
          bind-IsTraced ext settings
            (on_attempts (
              check_account_lockout settings.account_lockout_threshold
                settings.account_lockout_duration_minutes req.email now))
            _ (apart ext settings λ db. refl)
            λ unlocked.
              bind-IsTraced ext settings (check_password ext settings ip now req) _
                (check_password-IsTraced ip now req)
                λ user.
                  bind-IsTraced ext settings
                    (guard user.is_active (http 403 "Account is deactivated")) _
                    (apart ext settings λ db. refl)
                    λ active.
                      bind-IsTraced ext settings (on_attempts (clear_failed_attempts req.email)) _
                        (apart ext settings λ db. refl)
                        λ cleared.
                          bind-IsTraced ext settings
                            (on_sessions
                              (enforce_session_limit settings.max_concurrent_sessions user.id))
                            _ (one_call ext settings (enforce user.id) λ db. refl)
                            λ enforced.
                              bind-IsTraced ext settings
                                (grant_user_scopes ext settings now user req.scope) _
                                (grant_user_scopes-IsTraced now user req.scope)
                                λ scopes.
                                  issue_pair-IsTraced ext settings fresh now user (some scopes)
