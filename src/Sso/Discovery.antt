-- ===== src/Sso/Discovery.antt =====
-- The discovery of an identity provider's endpoints, sso_service.py. The provider is asked by a GET,
-- whose answer is a parameter of each call. The instants are of the process's monotonic clock.
pub mod Https
pub mod Cached
use accelerator_pack_auth_se.Prelude.{
  ℕ, String, List, [], ◌∷◌, Bool, true, false, not, ◌&&◌, ◌+◌, Option, none, some, Result, ok, err,
  http, ltb, ◌==◌, str_eq, if◌then◌else◌, ◌>>=◌, ◌>>◌,
}
use accelerator_pack_auth_se.Exec.{Exec, pure}
use accelerator_pack_auth_se.Values.{
  Value, null, text, number, list, other, truthy, as_text, or_value, Dict, get, get_or, has_entry,
}
use accelerator_pack_auth_se.Models.{Time, hours}
use accelerator_pack_auth_se.StrMethods.{rstrip_char, has_scheme}
use Prim.Native.String as Text

-- The body of an answer as JSON: an object, another value, or no JSON.
pub data Body : Type 0 where
  object : Dict → Body
  another : Body
  malformed : Body

pub record Response : Type 0 where
  pub status_code : ℕ
  pub body : Body

-- `client.get(url)`; `none` where `httpx` raises.
abbrev pub Fetch : Type 0
Fetch = String → Option Response

unfoldable pub discovery_url : String → String
discovery_url issuer = Text.◌++◌ (rstrip_char 47 issuer) "/.well-known/openid-configuration"

-- An entry is good until its instant.
abbrev pub DiscoveryCache : Type 0
DiscoveryCache = List (String × (Time × Dict))

unfoldable pub cached : DiscoveryCache → String → Option (Time × Dict)
cached [] issuer = none
cached ((key, entry) ∷ cache) issuer = if str_eq key issuer then some entry else cached cache issuer

abbrev pub discovery_cache_ttl : Time
discovery_cache_ttl = hours 1

abbrev pub check_metadata : Body → Result Dict
check_metadata malformed = err (http 422 "OIDC discovery document is not valid JSON")
check_metadata another =
    err (http 422 "OIDC discovery document missing required fields (issuer, jwks_uri)")
check_metadata (object metadata) =
    if has_entry metadata "issuer" && has_entry metadata "jwks_uri"
    then ok metadata
    else err (http 422 "OIDC discovery document missing required fields (issuer, jwks_uri)")

unfoldable pub read_metadata : Option Response → Result Dict
read_metadata none = err (http 422 "OIDC discovery fetch failed")
read_metadata (some response) =
    if response.status_code == 200
    then check_metadata response.body
    else err (http 422 "OIDC discovery returned another status")

abbrev pub put_metadata :
    String → Time → Result Dict → DiscoveryCache → Result Dict × DiscoveryCache
put_metadata issuer now (err e) cache = (err e, cache)
put_metadata issuer now (ok metadata) cache =
    (ok metadata, (issuer, (now + discovery_cache_ttl, metadata)) ∷ cache)

unfoldable pub fetch_metadata : Fetch → Time → String → Exec DiscoveryCache Dict
fetch_metadata fetch now issuer cache =
    put_metadata issuer now (read_metadata (fetch (discovery_url issuer))) cache

abbrev pub from_cache :
    Option (Time × Dict) → Time → Exec DiscoveryCache Dict → Exec DiscoveryCache Dict
from_cache none now ask = ask
from_cache (some (expires, metadata)) now ask = if ltb now expires then pure metadata else ask

unfoldable pub discover_oidc_metadata : Fetch → Time → String → Exec DiscoveryCache Dict
discover_oidc_metadata fetch now issuer cache =
    from_cache (cached cache issuer) now (fetch_metadata fetch now issuer) cache

pub record Endpoints : Type 0 where
  pub token_url : Value
  pub userinfo_url : Value
  pub jwks_url : Value
  pub authorize_url : Value
  pub issuer : Value
  pub id_token_signing_alg_values_supported : Value

unfoldable pub require_https : String → Result (Unit {0})
require_https url =
    if has_scheme url "https" then ok tt else err (http 422 "OIDC endpoint must use https://")

-- `if resolved[key]: _require_https(resolved[key], key)`
unfoldable pub check_endpoint : Value → Result (Unit {0})
check_endpoint value = if truthy value then (as_text value >>= λ url. require_https url) else ok tt

unfoldable pub resolved : Dict → Dict → Endpoints
resolved config discovery = record {
  token_url = or_value (get config "token_url") (get discovery "token_endpoint");
  userinfo_url = or_value (get config "userinfo_url") (get discovery "userinfo_endpoint");
  jwks_url = or_value (get config "jwks_url") (get discovery "jwks_uri");
  authorize_url = or_value (get config "authorize_url") (get discovery "authorization_endpoint");
  issuer = or_value (get discovery "issuer") (get_or config "issuer" (text ""));
  id_token_signing_alg_values_supported =
      get_or discovery "id_token_signing_alg_values_supported" (list ("RS256" ∷ []) "['RS256']");
}

unfoldable pub check_endpoints : Endpoints → Result Endpoints
check_endpoints e = check_endpoint e.token_url >>= λ token.
    check_endpoint e.userinfo_url >>= λ userinfo.
    check_endpoint e.jwks_url >>= λ jwks. check_endpoint e.authorize_url >>= λ authorize. ok e

unfoldable pub resolve_oidc_endpoints : Dict → Dict → Result Endpoints
resolve_oidc_endpoints config discovery = check_endpoints (resolved config discovery)
