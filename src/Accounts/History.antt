-- ===== src/Accounts/History.antt =====
-- Histories of requests: what holds of the refresh tokens after any sequence of registrations, logins,
-- refreshes, logouts and revocations, whatever each of them returns or raises.
use accelerator_pack_auth_se.Prelude.{
  String, List, [], ◌∷◌, ◌++◌, ◌≡◌, refl, ap, sym, ◌∙◌, Option, none, some, ok, err, subst, str_eq,
}
use accelerator_pack_auth_se.Exec.{Exec, lift, pure}
use accelerator_pack_auth_se.Models.{Time}
use accelerator_pack_auth_se.Models.Rows.{RefreshToken}
use accelerator_pack_auth_se.Models.Database.{Database}
use accelerator_pack_auth_se.External.{External, Claims}
use accelerator_pack_auth_se.Config.{Settings}
use accelerator_pack_auth_se.ScopeString.{text_or_empty}
use accelerator_pack_auth_se.Sessions.{validate_refresh_token}
use accelerator_pack_auth_se.Sessions.Spent.{
  Call, revoke_user, step, run, IsUnique, run-IsUnique, validate_refresh_token-once,
}
use accelerator_pack_auth_se.StrMethods.{remove_prefix}
use accelerator_pack_auth_se.Tokens.{on_blacklist, blacklist_token, decode_token, get_current_user}
use accelerator_pack_auth_se.Tokens.Verification.{decode_token-state}
use accelerator_pack_auth_se.Tokens.Admission.{get_current_user-state}
use accelerator_pack_auth_se.Accounts.{
  FreshLogin, LoginRequest, RegisterRequest, refresh_token, login, register, blacklist_own, logout,
  revoke_access_token, blacklist_claims, read_exp, invalid_refresh,
}
use accelerator_pack_auth_se.Accounts.Traces.Entry.{register-IsTraced, login-IsTraced}
use accelerator_pack_auth_se.Accounts.Traces.{
  IsTraced, run_sessions, run-append, apart, one_call, bind-IsTraced, if-IsTraced,
  refresh_token-IsTraced, refresh_token-valid,
}

pub data Request : Type 0 where
  registering : FreshLogin → Time → RegisterRequest → Request
  logging_in : FreshLogin → Option String → Time → LoginRequest → Request
  refreshing : FreshLogin → Time → String → Request
  logging_out : Time → String → String → Request
  revoking : Time → String → String → Request

module _ (ext : External) (settings : Settings) where
  blacklist_token-IsTraced :
      (jti : String) (expires_at now : Time)
      → IsTraced ext settings (on_blacklist (blacklist_token jti expires_at now))
  unfolding blacklist_token
  blacklist_token-IsTraced jti expires_at now = apart ext settings λ db. refl

  blacklist_claims-IsTraced :
      (now : Time) (payload : Claims) (missing : Exec Database Unit)
      → IsTraced ext settings missing
      → IsTraced ext settings (blacklist_claims ext settings now payload missing)
  unfolding blacklist_claims
  blacklist_claims-IsTraced now payload missing h =
      if-IsTraced ext settings (str_eq (text_or_empty payload.jti) "") missing _ h (
        bind-IsTraced ext settings (lift (read_exp ext settings payload.exp)) _
          (apart ext settings λ db. refl)
          λ exp. blacklist_token-IsTraced (text_or_empty payload.jti) exp now)

  blacklist_own-IsTraced :
      (now : Time) (token : String) → IsTraced ext settings (blacklist_own ext settings now token)
  unfolding blacklist_own
  blacklist_own-IsTraced now token =
      if-IsTraced ext settings (str_eq token "") (pure tt) _ (apart ext settings λ db. refl) (
        bind-IsTraced ext settings (decode_token ext settings now token) _
          (apart ext settings
            λ db. ap (λ d. d.refresh_tokens) (decode_token-state ext settings now token db))
          λ payload.
            blacklist_claims-IsTraced now payload (pure tt) (apart ext settings λ db. refl))

  logout-IsTraced :
      (now : Time) (credentials authorization : String)
      → IsTraced ext settings (logout ext settings now credentials authorization)
  unfolding logout run step
  logout-IsTraced now credentials authorization =
      bind-IsTraced ext settings (get_current_user ext settings now credentials) _
        (apart ext settings
          λ db. ap (λ d. d.refresh_tokens) (get_current_user-state ext settings now credentials db))
        λ user.
          bind-IsTraced ext settings
            (blacklist_own ext settings now (remove_prefix "Bearer " authorization)) _
            (blacklist_own-IsTraced now (remove_prefix "Bearer " authorization))
            λ listed. one_call ext settings (revoke_user user.id) λ db. refl

  revoke_access_token-IsTraced :
      (now : Time) (caller token : String)
      → IsTraced ext settings (revoke_access_token ext settings now caller token)
  unfolding revoke_access_token
  revoke_access_token-IsTraced now caller token =
      bind-IsTraced ext settings (get_current_user ext settings now caller) _
        (apart ext settings
          λ db. ap (λ d. d.refresh_tokens) (get_current_user-state ext settings now caller db))
        λ user.
          bind-IsTraced ext settings (decode_token ext settings now token) _
            (apart ext settings
              λ db. ap (λ d. d.refresh_tokens) (decode_token-state ext settings now token db))
            λ payload. blacklist_claims-IsTraced now payload _ (apart ext settings λ db. refl)

  -- The database after a request.
  unfoldable pub serve : Request → Database → Database
  serve (registering fresh now req) db = (register ext settings fresh now req db).1
  serve (logging_in fresh ip now req) db = (login ext settings fresh ip now req db).1
  serve (refreshing fresh now token) db = (refresh_token ext settings fresh now token db).1
  serve (logging_out now credentials authorization) db =
      (logout ext settings now credentials authorization db).1
  serve (revoking now caller token) db = (revoke_access_token ext settings now caller token db).1

  unfoldable pub serve_all : List Request → Database → Database
  serve_all [] db = db
  serve_all (r ∷ rs) db = serve_all rs (serve r db)

  serve-calls :
      (r : Request) (db : Database)
      → (cs : List Call) × ((serve r db).refresh_tokens
          ≡ run_sessions ext settings db.refresh_tokens cs)
  unfolding serve
  serve-calls (registering fresh now req) db =
      let t = register-IsTraced ext settings fresh now req in (t.calls db, t.follows db)
  serve-calls (logging_in fresh ip now req) db =
      let t = login-IsTraced ext settings fresh ip now req in (t.calls db, t.follows db)
  serve-calls (refreshing fresh now token) db =
      let t = refresh_token-IsTraced ext settings fresh now token in (t.calls db, t.follows db)
  serve-calls (logging_out now credentials authorization) db =
      let t = logout-IsTraced now credentials authorization in (t.calls db, t.follows db)
  serve-calls (revoking now caller token) db =
      let t = revoke_access_token-IsTraced now caller token in (t.calls db, t.follows db)

  -- A history of requests leaves the refresh tokens as a sequence of calls does.
  serve_all-calls :
      (rs : List Request) (db : Database)
      → (cs : List Call) × ((serve_all rs db).refresh_tokens
          ≡ run_sessions ext settings db.refresh_tokens cs)
  unfolding serve_all run
  serve_all-calls [] db = ([], refl)
  serve_all-calls (r ∷ rs) db =
      let (cs, first) = serve-calls r db in
      let (ds, rest) = serve_all-calls rs (serve r db) in
      (
        cs ++ ds,
        rest
            ∙ ap (λ t. run_sessions ext settings t ds) first
            ∙ sym (run-append ext settings cs ds db.refresh_tokens),
      )

  -- From a table without two refresh tokens of one hash, no history of registrations, logins,
  -- refreshes, logouts and revocations leads to one with two.
  pub serve_all-IsUnique :
      (rs : List Request) (db : Database)
      → IsUnique db.refresh_tokens
      → IsUnique (serve_all rs db).refresh_tokens
  serve_all-IsUnique rs db u =
      let (cs, same) = serve_all-calls rs db in
      subst IsUnique (sym same) (
        run-IsUnique ext.sha256 settings.max_concurrent_sessions settings.refresh_token_expire_days
          cs db.refresh_tokens u)

  refused :
      (fresh : FreshLogin) (later : Time) (token : String) (db : Database)
      → (validate_refresh_token ext.sha256 token later db.refresh_tokens).0 ≡ ok none
      → (refresh_token ext settings fresh later token db).0 ≡ err invalid_refresh
  unfolding refresh_token validate_refresh_token
  refused fresh later token db h = rw h refl

  -- A refresh token is used once: from a table without two tokens of one hash, after a refresh
  -- request with a valid token, whatever that request came to and whatever registrations, logins,
  -- refreshes, logouts and revocations follow it, the same token is refused with the status 401 at
  -- any time.
  pub refresh_token-once :
      (fresh again : FreshLogin) (now later : Time) (token : String) (stored : RefreshToken)
      (rs : List Request) (db : Database)
      → IsUnique db.refresh_tokens
      → (validate_refresh_token ext.sha256 token now db.refresh_tokens).0 ≡ ok (some stored)
      → (refresh_token ext settings again later token
          (serve_all rs (refresh_token ext settings fresh now token db).1)).0
        ≡ err invalid_refresh
  refresh_token-once fresh again now later token stored rs db u h =
      let (cs, first) = refresh_token-valid ext settings fresh now token db stored h in
      let (ds, rest) = serve_all-calls rs (refresh_token ext settings fresh now token db).1 in
      let path =
        rest
        ∙ ap (λ t. run_sessions ext settings t ds) first
        ∙ sym (run-append ext settings cs ds _) in
      refused again later token _ (
        subst (λ t. (validate_refresh_token ext.sha256 token later t).0 ≡ ok none) (sym path)
          (validate_refresh_token-once ext.sha256 settings.max_concurrent_sessions
            settings.refresh_token_expire_days token now later db.refresh_tokens stored (cs ++ ds) u
            h))
