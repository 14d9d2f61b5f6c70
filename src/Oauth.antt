-- ===== src/Oauth.antt =====
-- The OAuth2 token endpoint of main.py: `oauth_token` and the helpers that shape its answers.
pub mod Passed
pub mod Issuing
pub mod Refusing
mod Tests
use accelerator_pack_auth_se.Prelude.{
  ℕ, ◌*◌, String, List, [], ◌∷◌, ◌++◌, Bool, true, false, not, ◌&&◌, ◌||◌, Option, none, some,
  str_eq, is_some, if◌then◌else◌,
}
use accelerator_pack_auth_se.Exec.{Exec, pure, zoom, ◌>>=◌, ◌>>◌}
use accelerator_pack_auth_se.Models.{Time, PrincipalType, failure}
use accelerator_pack_auth_se.Models.Rows.{ServiceAccount}
use accelerator_pack_auth_se.Models.Database.{Database}
use accelerator_pack_auth_se.External.{External}
use accelerator_pack_auth_se.Config.{Settings}
use accelerator_pack_auth_se.ScopeString.{join, text_or_empty, parse_scope_string}
use accelerator_pack_auth_se.StrMethods.{before, after, has_char, strip, lower_eq, lower_starts}
use accelerator_pack_auth_se.Scopes.{
  Grant, granted, invalid_scope, grant_scopes, deserialize_scopes,
}
use accelerator_pack_auth_se.Audit.{typed, log_audit}
use accelerator_pack_auth_se.Clients.{
  Accounts, get_client_by_client_id, verify_secret, is_client_usable, update_last_used,
}
use accelerator_pack_auth_se.Tokens.{FreshToken, on_audit, create_client_access_token}
use Prim.Native.String as Text

abbrev pub on_accounts : {A : Type 0} → Exec Accounts A → Exec Database A
on_accounts = zoom (λ d. d.service_accounts) (λ t d. record d { service_accounts = t })

-- What the handler reads of a request; the form fields are those of a form-encoded body.
pub record TokenRequest : Type 0 where
  pub content_type : Option String
  pub authorization : Option String
  pub grant_type : Option String
  pub client_id : Option String
  pub client_secret : Option String
  pub scope : Option String
  pub host : Option String

pub data Body : Type 0 where
  error_body : (error description : String) → Body
  token_body : (access_token : String) (expires_in : ℕ) (scope : String) → Body

pub record Reply : Type 0 where
  pub status : ℕ
  pub body : Body
  pub headers : List (String × String)

abbrev pub no_store_headers : List (String × String)
no_store_headers = ("Cache-Control", "no-store") ∷ ("Pragma", "no-cache") ∷ []

abbrev pub oauth2_error : ℕ → List (String × String) → String → String → Reply
oauth2_error http_status headers error description = record {
  status = http_status;
  body = error_body error description;
  headers = no_store_headers ++ headers;
}

abbrev pub bad_request : String → String → Reply
bad_request error description = oauth2_error 400 [] error description

abbrev pub invalid_client_response : (attempted_basic_auth : Bool) → Reply
invalid_client_response attempted_basic_auth =
    oauth2_error 401
      (if attempted_basic_auth
        then ("WWW-Authenticate", "Basic realm=\"auth-service\", error=\"invalid_client\"") ∷ []
        else [])
      "invalid_client" "Client authentication failed"

unfoldable pub is_form_urlencoded : Option String → Bool
unfolding before strip lower_eq
is_form_urlencoded content_type =
    let text = text_or_empty content_type in
    not (str_eq text "") && lower_eq (strip (before 0x3b text)) "application/x-www-form-urlencoded"

-- `headers.get("authorization", "").lower().startswith("basic ")`
unfoldable pub attempted_basic : TokenRequest → Bool
unfolding lower_starts
attempted_basic request = lower_starts (text_or_empty request.authorization) "basic "

-- Both parts of the credentials are given: neither is the empty text.
abbrev pub are_present : String × String → Bool
are_present (client_id, client_secret) = not (str_eq client_id "") && not (str_eq client_secret "")

module _ (ext : External) where
  split_credentials : Option String → Option (String × String)
  unfolding has_char before after
  split_credentials none = none
  split_credentials (some decoded) =
      if has_char 0x3a decoded then some (before 0x3a decoded, after 0x3a decoded) else none

  unfoldable pub parse_basic_auth : Option String → Option (String × String)
  unfolding split_credentials before after strip lower_eq
  parse_basic_auth header =
      let text = text_or_empty header in
      let encoded = after 0x20 text in
      if str_eq text "" || not (lower_eq (before 0x20 text) "basic") || str_eq encoded ""
      then none
      else split_credentials (ext.b64decode (strip encoded))

  or_form : TokenRequest → Option (String × String) → String × String
  or_form request (some credentials) = credentials
  or_form request none = (text_or_empty request.client_id, text_or_empty request.client_secret)

  -- The credentials of the header, or else those of the form.
  unfoldable pub presented : TokenRequest → String × String
  unfolding or_form
  presented request = or_form request (parse_basic_auth request.authorization)

  abbrev pub form_has_credentials : TokenRequest → Bool
  form_has_credentials request = is_some request.client_id || is_some request.client_secret

  -- The refusals that come before the credentials are looked at.
  unfoldable pub precheck : Settings → TokenRequest → Option Reply
  precheck settings request =
      if not (is_form_urlencoded request.content_type)
      then some
          (bad_request "invalid_request" "Content-Type must be application/x-www-form-urlencoded")
      else if str_eq (text_or_empty request.grant_type) ""
      then some (bad_request "invalid_request" "grant_type parameter is required")
      else if not settings.client_credentials_enabled
      then some (bad_request "unsupported_grant_type" "client_credentials grant is disabled")
      else if not (str_eq (text_or_empty request.grant_type) "client_credentials")
      then some (bad_request "unsupported_grant_type" "Only client_credentials is supported")
      else if is_some (parse_basic_auth request.authorization) && form_has_credentials request
      then some
          (bad_request "invalid_request" "Use either HTTP Basic or form-body credentials, not both")
      else none

  -- The account may have a token: it is known, the secret is its own, and it can be used now.
  unfoldable pub is_authentic : Time → String → Option ServiceAccount → Bool
  is_authentic now secret none = false
  is_authentic now secret (some account) =
      verify_secret ext.bcrypt secret account.client_secret_hash && is_client_usable now account

  module _ (settings : Settings) where
    abbrev pub token_reply : String → List String → Reply
    token_reply token issued_scopes = record {
      status = 200;
      body = token_body token (settings.client_token_expire_minutes * 60) (join issued_scopes);
      headers = no_store_headers;
    }

    -- The scopes are granted, or not.
    unfoldable pub answer :
        FreshToken → Time → TokenRequest → ServiceAccount → Grant → Exec Database Reply
    answer fresh now request account (granted issued_scopes) = do
      token ← create_client_access_token ext settings fresh now account (some issued_scopes)
      on_accounts (update_last_used account.client_id request.host now)
      on_audit (
          log_audit none "oauth_token_issued" (Text.◌++◌ "client=" account.client_id)
            (typed PrincipalType.client) (some account.client_id) none now)
      pure (token_reply token issued_scopes)
    answer fresh now request account (invalid_scope message) = do
      on_audit (
          log_audit none "oauth_token_invalid_scope" (text_or_empty request.scope)
            (typed PrincipalType.client) (some account.client_id) (some failure) now)
      pure (bad_request "invalid_scope" message)

    abbrev pub scopes_for : TokenRequest → ServiceAccount → Grant
    scopes_for request account =
        grant_scopes (deserialize_scopes ext.json (some account.scopes))
          (parse_scope_string request.scope) settings.strict_scopes

    -- The account that was looked up is checked, and its request answered.
    unfoldable pub serve :
        FreshToken → Time → TokenRequest → Option ServiceAccount → Exec Database Reply
    serve fresh now request none = pure (invalid_client_response (attempted_basic request))
    serve fresh now request (some account) =
        let answered = answer fresh now request account (scopes_for request account) in
        if is_authentic now (presented request).1 (some account)
        then answered
        else pure (invalid_client_response (attempted_basic request))

    -- A refusal is answered as it is. The secret is also compared with a constant hash where no account
    -- is found, for the time that it takes; the result is not used.
    unfoldable pub authenticate :
        FreshToken → Time → TokenRequest → Option Reply → Exec Database Reply
    authenticate fresh now request (some refusal) = pure refusal
    authenticate fresh now request none =
        let (client_id, client_secret) = presented request in
        let looked_up =
          on_accounts (get_client_by_client_id client_id) >>= serve fresh now request in
        if are_present (client_id, client_secret)
        then looked_up
        else pure (invalid_client_response (attempted_basic request))

    unfoldable pub oauth_token : FreshToken → Time → TokenRequest → Exec Database Reply
    unfolding authenticate
    oauth_token fresh now request = authenticate fresh now request (precheck settings request)
