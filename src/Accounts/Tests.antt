-- ===== src/Accounts/Tests.antt =====
-- Witnesses for the theorems on the handlers of registration, login, refresh and logout.
use accelerator_pack_auth_se.Prelude.{
  List, [], ◌∷◌, ◌≡◌, refl, none, some, ok, err, arith, select, any,
}
use accelerator_pack_auth_se.Table.{order_desc}
use accelerator_pack_auth_se.Lockout.{locked, check_account_lockout, clear_failed_attempts}
use accelerator_pack_auth_se.Sessions.{
  validate_refresh_token, enforce_session_limit, store_refresh_token, revoke_user_tokens,
}
use accelerator_pack_auth_se.Sessions.Spent.{IsUnique}
use accelerator_pack_auth_se.Keys.{get_active_signing_key, get_key_by_kid}
use accelerator_pack_auth_se.Decimal.{int, str}
use accelerator_pack_auth_se.ScopeString.{parse_scope_string}
use accelerator_pack_auth_se.Scopes.{grant_scopes}
use accelerator_pack_auth_se.StrMethods.{remove_prefix, after_prefix}
use accelerator_pack_auth_se.Tokens.{
  get_current_user, decode_token, read_kid, check_key, is_accepted, admit_claims,
  is_token_blacklisted, read_sub, find_user, blacklist_token, create_access_token,
}
use accelerator_pack_auth_se.Samples.{
  ext, settings, now, alice, session, db, fresh_token, payload, payload-IsPayload,
}
use accelerator_pack_auth_se.Accounts.{
  verify_password, require_local_auth, check_password, grant_user_scopes, granted_or_denied,
  issue_pair, blacklist_claims, FreshLogin, LoginRequest, TokenResponse, invalid_refresh, login,
  blacklist_own, logout, refresh_token, password_matches, find_email,
}
use accelerator_pack_auth_se.Accounts.Login.{Try, try_all, login-lockout}
use accelerator_pack_auth_se.Accounts.Access.{IsLogin, login-ok}
use accelerator_pack_auth_se.Accounts.Logout.{logout-revoked}
use accelerator_pack_auth_se.Accounts.History.{logging_out, serve_all, refresh_token-once}

abbrev fresh : FreshLogin
fresh = record { access = fresh_token; refresh_value = "r2"; salt = "" }

abbrev right : LoginRequest
right = record { email = "alice@example.com"; password = "secret"; scope = none }

abbrev wrong : LoginRequest
wrong = record { email = "alice@example.com"; password = "guess"; scope = none }

abbrev response : TokenResponse
response = record { access_token = "k1"; refresh_token = "r2"; expires_in = 900; user = alice }

one_session : IsUnique db.refresh_tokens
unfolding select
one_session hash = ground arith

refresh_token-once_example :
    (refresh_token ext settings fresh now "r1" (
      serve_all ext settings
        (logging_out now "k1" "Bearer k1" ∷ [])
        (refresh_token ext settings fresh now "r1" db).1)).0
    ≡ err invalid_refresh
unfolding validate_refresh_token select
refresh_token-once_example =
    refresh_token-once ext settings fresh fresh now now "r1" session
      (logging_out now "k1" "Bearer k1" ∷ []) db one_session refl

abbrev guess : Try ext settings
guess = record { fresh = fresh; ip = none; at = now; password = "guess"; scope = none }

abbrev guesses : List (Try ext settings)
guesses = guess ∷ guess ∷ guess ∷ guess ∷ guess ∷ []

login-lockout_example :
    login ext settings fresh none now right (try_all ext settings "alice@example.com" guesses db)
    ≡ (err locked, try_all ext settings "alice@example.com" guesses db)
unfolding find_email password_matches verify_password select
login-lockout_example =
    login-lockout ext settings fresh none now right (some alice) guesses db refl refl refl
      (refl, refl, (refl, refl, (refl, refl, (refl, refl, (refl, refl, tt))))) (omega arith)

logged_in : (login ext settings fresh none now right db).0 ≡ ok response
unfolding login select require_local_auth check_account_lockout check_password find_email
    password_matches verify_password clear_failed_attempts enforce_session_limit order_desc
    grant_user_scopes granted_or_denied grant_scopes parse_scope_string issue_pair
    create_access_token get_active_signing_key store_refresh_token any
logged_in = refl

logged_out : (logout ext settings now "k1" "Bearer k1" db).0 ≡ ok tt
unfolding logout blacklist_own remove_prefix after_prefix get_current_user decode_token read_kid
    get_key_by_kid select check_key is_accepted admit_claims is_token_blacklisted read_sub int str
    find_user blacklist_claims blacklist_token any revoke_user_tokens
logged_out = refl

login-ok_example : IsLogin ext settings fresh now right db response
login-ok_example = login-ok ext settings fresh none now right db response logged_in

logout-revoked_example : ¬ (
    (get_current_user ext settings now "k1" (logout ext settings now "k1" "Bearer k1" db).1).0
    ≡ ok alice)
unfolding remove_prefix after_prefix
logout-revoked_example =
    logout-revoked ext settings payload now now "k1" "Bearer k1" db alice tt payload-IsPayload refl
      refl logged_out
