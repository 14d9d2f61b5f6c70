-- ===== src/Sso/Exchange.antt =====
-- The exchange of an authorization code for verified claims, sso_service.py: the token request, the key
-- sets of identity providers with their caches, and the verification of the ID token.
pub mod IdToken
pub mod KeySets
pub mod Verified
use accelerator_pack_auth_se.Prelude.{
  ℕ, String, List, [], ◌∷◌, Bool, true, false, not, ◌&&◌, ◌+◌, ◌-◌, Option, none, some, Result, ok,
  err, Error, http, type_error, value_error, transport_error, ltb, ◌==◌, str_eq, if◌then◌else◌,
}
use accelerator_pack_auth_se.Prelude as Result
use accelerator_pack_auth_se.Exec.{
  Exec, found_or, pure, raise, lift, modify, guard, zoom, ◌>>=◌, ◌>>◌,
}
use accelerator_pack_auth_se.Decimal.{int}
use accelerator_pack_auth_se.Values.{
  Value, null, text, number, list, other, truthy, as_text, or_value, Dict, get, get_or, add_missing,
}
use accelerator_pack_auth_se.Models.{Time, hours, seconds}
use accelerator_pack_auth_se.Sso.Discovery.{
  Body, object, another, malformed, Response, DiscoveryCache, Endpoints, discover_oidc_metadata,
  resolve_oidc_endpoints,
}

-- The identity provider in the course of one request: the answers to a GET with or without a bearer
-- token and to a POST of a form with or without Basic credentials, `none` where `httpx` raises.
pub record Remote : Type 0 where
  pub fetch : String → Option String → Option Response
  pub post : String → Dict → Option (String × String) → Option Response

-- The keys of a key set by their `kid`.
abbrev pub KeySet : Type 0
KeySet = List (String × String)

-- PyJWT: `PyJWKSet.from_dict`, `none` where it refuses the document or there is no JSON; the `kid` of
-- the header of a token; `jwt.decode` with the signature, the audience, the issuer and the times
-- checked.
pub record IdTokens : Type 0 where
  pub key_set : Body → Option KeySet
  pub get_unverified_header : String → Option (Option String)
  pub decode : String → String → Value → Value → Value → Option Dict

-- A bearer token is cached by the URL, the client and the hash of its secret.
abbrev pub TokenKey : Type 0
TokenKey = String × (String × String)

pub record Caches : Type 0 where
  pub discovery_cache : DiscoveryCache
  pub jwks_cache : List (String × (Time × KeySet))
  pub cc_token_cache : List (TokenKey × (Time × String))

abbrev pub on_discovery : {A : Type 0} → Exec DiscoveryCache A → Exec Caches A
on_discovery = zoom (λ c. c.discovery_cache) (λ d c. record c { discovery_cache = d })

abbrev pub same_token_key : TokenKey → TokenKey → Bool
same_token_key (url, (client, hash)) (url', (client', hash')) =
    str_eq url url' && (str_eq client client' && str_eq hash hash')

unfoldable pub cached_keys : List (String × (Time × KeySet)) → String → Option (Time × KeySet)
cached_keys [] url = none
cached_keys ((key, entry) ∷ cache) url =
    if str_eq key url then some entry else cached_keys cache url

unfoldable pub cached_token : List (TokenKey × (Time × String)) → TokenKey → Option (Time × String)
cached_token [] key = none
cached_token ((key', entry) ∷ cache) key =
    if same_token_key key' key then some entry else cached_token cache key

-- `if cached and cached[0] > now: return cached[1]`
abbrev pub unless_cached : {A : Type 0} → Option (Time × A) → Time → Exec Caches A → Exec Caches A
unless_cached none now ask = ask
unless_cached (some (expires, value)) now ask = if ltb now expires then pure value else ask

abbrev pub sent : Option Response → Result Response
sent none = err transport_error
sent (some response) = ok response

-- `resp.json()` where an answer without JSON is met by an error of its own, and its `get` after it.
abbrev pub payload_or : Error → Body → Result Dict
payload_or no_json malformed = err no_json
payload_or no_json another = err type_error
payload_or no_json (object d) = ok d

-- `int(value)`; a fraction or a Boolean is not told apart from a dictionary.
abbrev pub int_value : Value → Result ℕ
int_value (number n) = ok n
int_value (text s) = elim (int s) [ none ↦ err (value_error "int") | some n ↦ ok n ]
int_value _ = err type_error

abbrev pub cc_token_refresh_margin : ℕ
cc_token_refresh_margin = 60

abbrev pub put_token : TokenKey → Time → String → ℕ → Caches → Caches
put_token key now access_token expires_in c =
    if ltb cc_token_refresh_margin expires_in
    then record c {
      cc_token_cache =
          (key, (now + seconds (expires_in - cc_token_refresh_margin), access_token))
          ∷ c.cc_token_cache;
    }
    else c

abbrev pub scope_form : Value → Dict
scope_form scope =
    let rest : Dict = if truthy scope then ("scope", scope) ∷ [] else [] in
    ("grant_type", text "client_credentials") ∷ rest

module _ (sha256 : String → String) (jwt : IdTokens) (remote : Remote) where
  unfoldable pub client_credentials_token :
      Time → String → String → String → Value → Exec Caches String
  client_credentials_token now token_url client_id client_secret scope c =
      let key : TokenKey = (token_url, (client_id, sha256 client_secret)) in
      unless_cached (cached_token c.cc_token_cache key) now
        (lift (sent (remote.post token_url (scope_form scope) (some (client_id, client_secret))))
          >>= λ resp.
              guard (resp.status_code == 200) (http 401 "Client-credentials token fetch failed")
              >> (lift (payload_or (http 401 "Client-credentials response was not JSON") resp.body)
                  >>= λ payload.
                      guard (truthy (get payload "access_token"))
                        (http 401 "Client-credentials response missing access_token")
                      >> (lift (as_text (get payload "access_token")) >>= λ access_token.
                          lift (int_value (get_or payload "expires_in" (number 300)))
                          >>= λ expires_in.
                              modify (put_token key now access_token expires_in)
                              >> pure access_token)))
        c

  -- The GET of the key set, repeated with a bearer token where it is refused and a fallback is given.
  unfoldable pub get_jwks :
      Time → String → Option (String × (String × (String × Value))) → Exec Caches Response
  get_jwks now jwks_url none = lift (sent (remote.fetch jwks_url none))
  get_jwks now jwks_url (some (token_url, (client_id, (client_secret, scope)))) =
      lift (sent (remote.fetch jwks_url none)) >>= λ resp.
      (if resp.status_code == 401
        then (client_credentials_token now token_url client_id client_secret scope >>= λ bearer.
            lift (sent (remote.fetch jwks_url (some bearer))))
        else pure resp)

  abbrev pub put_keys : String → Time → KeySet → Caches → Caches
  put_keys jwks_url now keys c = record c {
    jwks_cache = (jwks_url, (now + hours 1, keys)) ∷ c.jwks_cache;
  }

  unfoldable pub fetch_jwks :
      Time → String → Option (String × (String × (String × Value))) → Exec Caches KeySet
  fetch_jwks now jwks_url fallback c =
      unless_cached (cached_keys c.jwks_cache jwks_url) now
        (get_jwks now jwks_url fallback >>= λ resp.
          guard (resp.status_code == 200) (http 401 "JWKS fetch failed")
          >> found_or (raise (http 401 "Invalid JWKS payload from IdP")) (jwt.key_set resp.body)
              λ keys. modify (put_keys jwks_url now keys) >> pure keys)
        c

unfoldable pub key_for : KeySet → String → Option String
key_for [] kid = none
key_for ((k, key) ∷ keys) kid = if str_eq k kid then some key else key_for keys kid

abbrev pub is_text : Value → String → Bool
is_text (text s) expected = str_eq s expected
is_text _ expected = false

abbrev pub kid_of : Option String → Result String
kid_of none = err (http 401 "ID token missing kid header")
kid_of (some kid) = if str_eq kid "" then err (http 401 "ID token missing kid header") else ok kid

abbrev pub or_refused : {A : Type 0} → String → Option A → Result A
or_refused detail none = err (http 401 detail)
or_refused detail (some a) = ok a

-- The nonce is always expected: the only caller passes that of the state.
unfoldable pub verify_id_token_with_jwks :
    IdTokens → String → KeySet → Value → Value → String → Value → Result Dict
verify_id_token_with_jwks jwt id_token jwks audience issuer expected_nonce allowed_algs =
    Result.◌>>=◌ (or_refused "Invalid ID token from IdP" (jwt.get_unverified_header id_token))
      λ header. Result.◌>>=◌ (kid_of header) λ kid.
        Result.◌>>=◌ (or_refused "ID token signed by unknown key" (key_for jwks kid)) λ signing_key.
          Result.◌>>=◌
            (or_refused "Invalid ID token from IdP"
              (jwt.decode id_token signing_key allowed_algs audience issuer))
            λ claims.
              if truthy (get claims "nonce") && is_text (get claims "nonce") expected_nonce
              then ok claims
              else err (http 401 "ID token nonce mismatch")

abbrev pub rs256 : Value
rs256 = list ("RS256" ∷ []) "['RS256']"

abbrev pub default_jwks_fallback_scope : Value
default_jwks_fallback_scope = text "urn:opc:idm:__myscopes__"

abbrev pub code_form : String → String → Value → Value → Dict
code_form code redirect_uri client_id client_secret =
    ("grant_type", text "authorization_code")
    ∷ ("code", text code)
    ∷ ("redirect_uri", text redirect_uri)
    ∷ ("client_id", client_id)
    ∷ ("client_secret", client_secret)
    ∷ []

-- The fallback of the key set, where the client has an identifier and a secret.
abbrev pub fallback_of : Dict → String → Result (Option (String × (String × (String × Value))))
fallback_of config token_url =
    if truthy (get config "client_id") && truthy (get config "client_secret")
    then (Result.◌>>=◌ (as_text (get config "client_id")) λ client_id.
        Result.◌>>=◌ (as_text (get config "client_secret")) λ client_secret. ok (
          some (
            token_url,
            (
              client_id,
              (client_secret, get_or config "jwks_fallback_scope" default_jwks_fallback_scope),
            ),
          )))
    else ok none

abbrev pub object_claims : Body → Result Dict
object_claims malformed = err (value_error "json")
object_claims another = ok []
object_claims (object d) = ok d

-- The claims of the userinfo endpoint, where there is one, the answer has a token for it, and it
-- answers with an object.
unfoldable pub userinfo_claims : Remote → Value → Value → Result Dict
userinfo_claims remote userinfo_url access_token =
    if truthy userinfo_url && truthy access_token
    then (Result.◌>>=◌ (as_text userinfo_url) λ url. Result.◌>>=◌ (as_text access_token) λ bearer.
        Result.◌>>=◌ (sent (remote.fetch url (some bearer)))
          λ resp. if resp.status_code == 200 then object_claims resp.body else ok [])
    else ok []

abbrev pub bare : Remote → String → Option Response
bare remote url = remote.fetch url none

module _ (sha256 : String → String) (jwt : IdTokens) (remote : Remote) where
  -- What follows the answer of the token endpoint.
  unfoldable pub claims_of :
      Time → Dict → Endpoints → String → String → String → Dict → Exec Caches Dict
  claims_of now config e token_url jwks_url expected_nonce tokens = do
    guard (truthy (get tokens "id_token")) (http 401 "IdP token response missing id_token")
    id_token ← lift (as_text (get tokens "id_token"))
    fallback ← lift (fallback_of config token_url)
    jwks ← fetch_jwks sha256 jwt remote now jwks_url fallback
    claims ← lift (
        verify_id_token_with_jwks jwt id_token jwks (get_or config "client_id" (text "")) e.issuer
          expected_nonce (or_value e.id_token_signing_alg_values_supported rs256))
    extra ← lift (userinfo_claims remote e.userinfo_url (get tokens "access_token"))
    pure (add_missing claims extra)

  -- The whole exchange; `now` is the instant of the monotonic clock, one for the request.
  unfoldable pub exchange_oidc_code : Time → Dict → String → String → String → Exec Caches Dict
  exchange_oidc_code now config code redirect_uri expected_nonce = do
    issuer ← lift (as_text (get_or config "issuer" (text "")))
    discovery ← on_discovery (discover_oidc_metadata (bare remote) now issuer)
    e ← lift (resolve_oidc_endpoints config discovery)
    guard (truthy e.token_url && truthy e.jwks_url)
        (http 422 "OIDC provider missing token_endpoint or jwks_uri")
    token_url ← lift (as_text e.token_url)
    jwks_url ← lift (as_text e.jwks_url)
    answer ← lift (
        sent (
          remote.post token_url
            (code_form code redirect_uri (get_or config "client_id" (text ""))
              (get_or config "client_secret" (text "")))
            none))
    guard (answer.status_code == 200) (http 401 "IdP token exchange failed")
    tokens ← lift (payload_or (value_error "json") answer.body)
    claims_of now config e token_url jwks_url expected_nonce tokens
