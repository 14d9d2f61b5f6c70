-- ===== src/Sso/Discovery/Https.antt =====
-- The endpoints that are resolved for a provider are reached over HTTPS only.
use accelerator_pack_auth_se.Prelude.{
  String, ◌≡◌, subst, true, false, ok, Bool-cases, inl, inr, ◌⊎◌, then-ok, ok-injective,
}
use accelerator_pack_auth_se.Values.{Value, null, text, number, list, other, truthy, as_text, Dict}
use accelerator_pack_auth_se.StrMethods.{has_scheme}
use accelerator_pack_auth_se.Sso.Discovery.{
  Endpoints, require_https, check_endpoint, resolved, check_endpoints, resolve_oidc_endpoints,
}

-- There is no such endpoint, or it is a URL with the scheme https.
abbrev pub IsHttps : Value → Type 0
IsHttps value =
    (truthy value ≡ false) ⊎ ((url : String) × (value ≡ text url) × (has_scheme url "https" ≡ true))

require_https-ok : (url : String) → require_https url ≡ ok tt → has_scheme url "https" ≡ true
unfolding require_https
require_https-ok url h = elim (Bool-cases (has_scheme url "https")) [
  | inl e ↦ e
  | inr e ↦ absurd (cc (rw e at h))
]

pub as_text-ok : (value : Value) (url : String) → as_text value ≡ ok url → value ≡ text url
as_text-ok (text s) url h = cc
as_text-ok null url h = cc
as_text-ok (number n) url h = cc
as_text-ok (list xs shown) url h = cc
as_text-ok (other b shown) url h = cc

check_endpoint-IsHttps : (value : Value) → check_endpoint value ≡ ok tt → IsHttps value
unfolding check_endpoint
check_endpoint-IsHttps value h = elim (Bool-cases (truthy value)) [
  | inl e ↦
      let (url, read, safe) = then-ok (as_text value) (λ u. require_https u) (rw e at h) in
      inr (url, as_text-ok value url read, require_https-ok url safe)
  | inr e ↦ inl e
]

-- Where the endpoints of a provider are resolved, each of the four that is there is a URL with the
-- scheme https, whether it comes from the configuration or from the discovery document.
pub resolve_oidc_endpoints-IsHttps :
    (config discovery : Dict) (e : Endpoints)
    → resolve_oidc_endpoints config discovery ≡ ok e
    → IsHttps e.token_url × IsHttps e.userinfo_url × IsHttps e.jwks_url × IsHttps e.authorize_url
unfolding resolve_oidc_endpoints check_endpoints
resolve_oidc_endpoints-IsHttps config discovery e h =
    let r = resolved config discovery in
    let (a, token, h1) = then-ok (check_endpoint r.token_url) _ h in
    let (b, userinfo, h2) = then-ok (check_endpoint r.userinfo_url) _ h1 in
    let (c, jwks, h3) = then-ok (check_endpoint r.jwks_url) _ h2 in
    let (d, authorize, h4) = then-ok (check_endpoint r.authorize_url) _ h3 in
    let same : r ≡ e = ok-injective r e h4 in
    subst
      (λ x.
        IsHttps x.token_url × IsHttps x.userinfo_url × IsHttps x.jwks_url × IsHttps x.authorize_url)
      same
      (
        check_endpoint-IsHttps r.token_url token,
        check_endpoint-IsHttps r.userinfo_url userinfo,
        check_endpoint-IsHttps r.jwks_url jwks,
        check_endpoint-IsHttps r.authorize_url authorize,
      )
