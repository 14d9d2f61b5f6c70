-- ===== src/Sso/Login.antt =====
-- The handlers `sso_authorize` and `sso_token_exchange` of main.py. `urlencode` is a parameter, as are the
-- identity provider, PyJWT and `re.search`; `mono` is the instant of the monotonic clock. A body is
-- taken with texts.
use accelerator_pack_auth_se.Prelude.{
  String, [], ◌∷◌, Bool, not, ◌&&◌, ◌||◌, Option, some, http, str_eq, if◌then◌else◌,
}
use accelerator_pack_auth_se.Exec.{Exec, found_or, pure, raise, lift, guard, zoom, ◌>>=◌, ◌>>◌}
use accelerator_pack_auth_se.StrMethods.{rstrip_char}
use accelerator_pack_auth_se.Values.{Value, text, truthy, str_of, as_text, Dict, get, get_or}
use accelerator_pack_auth_se.Models.{Time, ProviderType, oidc, saml}
use accelerator_pack_auth_se.Models.Federation.{IdentityProvider}
use accelerator_pack_auth_se.Models.Database.{Database}
use accelerator_pack_auth_se.External.{External}
use accelerator_pack_auth_se.Config.{Settings}
use accelerator_pack_auth_se.Queries.{one_where}
use accelerator_pack_auth_se.Accounts.{FreshLogin, TokenResponse, build_token_response}
use accelerator_pack_auth_se.Sso.States.{
  States, FreshState, store_sso_state, consume_sso_state, invalid_state,
}
use accelerator_pack_auth_se.Sso.Discovery.{discover_oidc_metadata}
use accelerator_pack_auth_se.Sso.Exchange.{
  Remote, IdTokens, Caches, on_discovery, bare, exchange_oidc_code,
}
use accelerator_pack_auth_se.Sso.Provisioning.{
  select_external_id, jit_provision_user, issue_sso_tokens,
}
use accelerator_pack_auth_se.Sso.Mappings.{apply_claim_mappings}
use accelerator_pack_auth_se.Sso.Providers.{provider_not_found}
use Prim.Native.String as Text

-- The database and the caches of the process.
pub record Process : Type 0 where
  pub database : Database
  pub caches : Caches

abbrev pub on_database : {A : Type 0} → Exec Database A → Exec Process A
on_database = zoom (λ p. p.database) (λ db p. record p { database = db })

abbrev pub on_caches : {A : Type 0} → Exec Caches A → Exec Process A
on_caches = zoom (λ p. p.caches) (λ c p. record p { caches = c })

abbrev pub on_states : {A : Type 0} → Exec States A → Exec Process A
on_states =
    zoom (λ p. p.database.sso_state)
      (λ t p. record p { database = record (p.database) { sso_state = t } })

abbrev pub is_active_slug : String → IdentityProvider → Bool
is_active_slug slug p = str_eq p.slug slug && p.is_active

abbrev pub active_provider : String → Exec Process (Option IdentityProvider)
active_provider slug = on_database (one_where (λ db. db.identity_providers) (is_active_slug slug))

pub record Authorize : Type 0 where
  pub authorize_url : String
  pub state : String
  pub provider_slug : String

pub record SsoTokenRequest : Type 0 where
  pub code : String
  pub redirect_uri : String
  pub state : String

unfoldable pub expected_redirect : String → String → String
expected_redirect base slug = Text.◌++◌ (rstrip_char 47 base) (Text.◌++◌ "/sso/callback/" slug)

abbrev pub redirect_allowed : String → String → String → Bool
redirect_allowed base slug redirect_uri =
    str_eq (rstrip_char 47 base) "" || str_eq redirect_uri (expected_redirect base slug)

module _ (remote : Remote) (urlencode : Dict → String) where
  -- The endpoint that is configured, or else the one that is discovered.
  unfoldable pub authorize_endpoint : Time → Dict → Exec Process Value
  authorize_endpoint mono config =
      if truthy (get config "authorize_url")
      then pure (get config "authorize_url")
      else (lift (as_text (get_or config "issuer" (text ""))) >>= λ issuer.
          on_caches (on_discovery (discover_oidc_metadata (bare remote) mono issuer))
          >>= λ discovery. pure (get discovery "authorization_endpoint"))

  abbrev pub authorize_params : Dict → String → String × String → Dict
  authorize_params config redirect_uri (state, nonce) =
      ("client_id", get_or config "client_id" (text ""))
      ∷ ("redirect_uri", text redirect_uri)
      ∷ ("response_type", text "code")
      ∷ ("scope", get_or config "scope" (text "openid email profile"))
      ∷ ("state", text state)
      ∷ ("nonce", text nonce)
      ∷ []

  unfoldable pub authorize_as :
      ProviderType → Time → Dict → String → String → String × String → Exec Process Authorize
  authorize_as oidc mono config slug redirect_uri (state, nonce) = do
    endpoint ← authorize_endpoint mono config
    guard (truthy endpoint) (http 422 "OIDC provider missing authorization_endpoint")
    pure (record {
      authorize_url =
          Text.◌++◌ (str_of endpoint)
            (Text.◌++◌ "?" (urlencode (authorize_params config redirect_uri (state, nonce))));
      state = state;
      provider_slug = slug;
    })
  authorize_as saml mono config slug redirect_uri (state, nonce) = pure (record {
    authorize_url = str_of (get_or config "login_url" (text ""));
    state = state;
    provider_slug = slug;
  })

  -- The state is stored before the endpoint is looked for.
  unfoldable pub sso_authorize :
      Settings → FreshState → Time → Time → String → String → Exec Process Authorize
  sso_authorize settings fresh mono now slug redirect_uri = do
    found ← active_provider slug
    found_or (raise provider_not_found) found λ provider. do
      guard (redirect_allowed settings.sso_redirect_base_url slug redirect_uri)
          (http 400 "redirect_uri must equal the expected one")
      pair ← on_states (store_sso_state fresh provider.id redirect_uri now)
      authorize_as provider.type mono provider.config slug redirect_uri pair

module _ (ext : External) (settings : Settings) (jwt : IdTokens) (remote : Remote)
    (re_search : String → String → Option Bool) where
  -- The account, its roles and its tokens, out of verified claims.
  unfoldable pub sign_in : FreshLogin → Time → IdentityProvider → Dict → Exec Database TokenResponse
  sign_in fresh now provider user_info = do
    guard (not (str_eq (select_external_id user_info) ""))
        (http 401 "IdP claims missing a stable subject identifier (oid / user_id / sub)")
    made ←
        jit_provision_user provider.id (select_external_id user_info)
          (get_or user_info "email" (text "")) (get_or user_info "name" (text "SSO User"))
          (some user_info) now
    assigned ← apply_claim_mappings re_search provider.id made.0 user_info now
    tokens ← issue_sso_tokens ext settings fresh now made.0
    pure (build_token_response settings tokens.0 tokens.1 made.0)

  unfoldable pub sso_token_exchange :
      FreshLogin → Time → Time → String → SsoTokenRequest → Exec Process TokenResponse
  sso_token_exchange fresh mono now slug body = do
    guard (not (str_eq body.state "")) (invalid_state "state parameter is required")
    found ← active_provider slug
    found_or (raise provider_not_found) found λ provider. do
      state_row ← on_states (consume_sso_state body.state provider.id now)
      guard (str_eq body.redirect_uri state_row.redirect_uri)
          (invalid_state "redirect_uri mismatch")
      user_info ← on_caches (
          exchange_oidc_code ext.sha256 jwt remote mono provider.config body.code body.redirect_uri
            state_row.nonce)
      on_database (sign_in fresh now provider user_info)
