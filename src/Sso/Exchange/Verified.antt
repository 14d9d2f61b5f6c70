-- ===== src/Sso/Exchange/Verified.antt =====
-- What the claims of a login rest on.
use accelerator_pack_auth_se.Prelude.{
  String, ◌≡◌, ap, sym, ◌∙◌, ◌&&◌, none, some, ok, http, value_error, ◌==◌, List, is_some,
  ok-injective, if◌then◌else◌,
}
use accelerator_pack_auth_se.Exec.{guard, lift, bind-returns, guard-ok}
use accelerator_pack_auth_se.Values.{
  Value, text, truthy, Dict, find, get, get_or, add_missing, find-add_missing, or_value, as_text,
}
use accelerator_pack_auth_se.Models.{Time}
use accelerator_pack_auth_se.Sso.Discovery.{
  object, Response, Endpoints, discover_oidc_metadata, resolve_oidc_endpoints,
}
use accelerator_pack_auth_se.Sso.Discovery.Https.{as_text-ok}
use accelerator_pack_auth_se.Sso.Exchange.{
  Remote, KeySet, IdTokens, Caches, verify_id_token_with_jwks, claims_of, exchange_oidc_code,
  fallback_of, fetch_jwks, rs256, userinfo_claims, sent, payload_or, code_form, on_discovery, bare,
}
use accelerator_pack_auth_se.Sso.Exchange.IdToken.{IsVerified, verify_id_token_with_jwks-IsVerified}
use accelerator_pack_auth_se.Sso.Exchange.KeySets.{
  IsKeySetOf, sent-ok, payload_or-ok, is_200, fetch_jwks-IsKeySetOf,
}

-- The claims that an exchange returns: those of the verified ID token, and of the extra ones only those
-- that it lacks.
abbrev pub AreBuiltOn : Dict → Dict → Dict → Type 0
AreBuiltOn claims verified extra =
    (key : String)
    → find claims key ≡ (if is_some (find verified key) then find verified key else find extra key)

module _ (sha256 : String → String) (jwt : IdTokens) (remote : Remote) (now : Time) (config : Dict)
    (expected_nonce : String) where
  abbrev client : Value
  client = get_or config "client_id" (text "")

  -- What follows the answer of the token endpoint, by the endpoints that were resolved.
  pub record AreClaimsOf (e : Endpoints) (jwks_url : String) (tokens claims : Dict)
      (cache : List (String × (Time × KeySet))) : Type 0 where
    pub id_token : String
    pub given : get tokens "id_token" ≡ text id_token
    pub jwks : KeySet
    pub own_keys : IsKeySetOf sha256 jwt remote now jwks_url jwks cache
    pub verified : Dict
    pub is_verified :
        IsVerified jwt id_token jwks client e.issuer
          (or_value e.id_token_signing_alg_values_supported rs256)
          expected_nonce
          verified
    pub extra : Dict
    pub of_user : userinfo_claims remote e.userinfo_url (get tokens "access_token") ≡ ok extra
    pub built : AreBuiltOn claims verified extra

  claims_of-AreClaimsOf :
      (e : Endpoints) (token_url jwks_url : String) (tokens claims : Dict) (c : Caches)
      → (claims_of sha256 jwt remote now config e token_url jwks_url expected_nonce tokens c).0
        ≡ ok claims
      → AreClaimsOf e jwks_url tokens claims c.jwks_cache
  unfolding claims_of
  claims_of-AreClaimsOf e token_url jwks_url tokens claims c h =
      let (a1, h1, r1) =
        bind-returns
          (guard (truthy (get tokens "id_token")) (http 401 "IdP token response missing id_token"))
          _ c claims h in
      let (id_token, h2, r2) =
        bind-returns (lift (as_text (get tokens "id_token"))) _ c claims r1 in
      let (fallback, h3, r3) = bind-returns (lift (fallback_of config token_url)) _ c claims r2 in
      let (jwks, h4, r4) =
        bind-returns (fetch_jwks sha256 jwt remote now jwks_url fallback) _ c claims r3 in
      let c' = (fetch_jwks sha256 jwt remote now jwks_url fallback c).1 in
      let (verified, h5, r5) =
        bind-returns
          (lift (
            verify_id_token_with_jwks jwt id_token jwks client e.issuer expected_nonce
              (or_value e.id_token_signing_alg_values_supported rs256)))
          _ c' claims r4 in
      let (extra, h6, r6) =
        bind-returns (lift (userinfo_claims remote e.userinfo_url (get tokens "access_token"))) _ c'
          claims r5 in
      let same : add_missing verified extra ≡ claims =
        ok-injective (add_missing verified extra) claims r6 in
      record {
        id_token = id_token;
        given = as_text-ok (get tokens "id_token") id_token h2;
        jwks = jwks;
        own_keys = fetch_jwks-IsKeySetOf sha256 jwt remote now jwks_url fallback c jwks h4;
        verified = verified;
        is_verified =
            verify_id_token_with_jwks-IsVerified jwt id_token jwks client e.issuer expected_nonce
              (or_value e.id_token_signing_alg_values_supported rs256) verified h5;
        extra = extra;
        of_user = h6;
        built = λ key. ap (λ d. find d key) (sym same) ∙ find-add_missing verified extra key;
      }

  -- Where the claims of an exchange come from.
  pub record IsExchanged (code redirect_uri : String) (claims : Dict) (c : Caches) : Type 0 where
    pub issuer : String
    pub configured : get_or config "issuer" (text "") ≡ text issuer
    pub discovery : Dict
    pub discovered :
        (discover_oidc_metadata (bare remote) now issuer c.discovery_cache).0 ≡ ok discovery
    pub endpoints : Endpoints
    pub are_resolved : resolve_oidc_endpoints config discovery ≡ ok endpoints
    pub token_url : String
    pub at_token_url : endpoints.token_url ≡ text token_url
    pub jwks_url : String
    pub at_jwks_url : endpoints.jwks_url ≡ text jwks_url
    pub answer : Response
    pub answered :
        remote.post token_url
          (code_form code redirect_uri client (get_or config "client_secret" (text "")))
          none
        ≡ some answer
    pub accepted : answer.status_code ≡ 200
    pub tokens : Dict
    pub are_tokens : answer.body ≡ object tokens
    pub are_claims : AreClaimsOf endpoints jwks_url tokens claims c.jwks_cache

  -- Where the exchange of a code returns claims, the token endpoint that is resolved for the provider
  -- answered the code with the status 200 and an ID token; the key set is that of the provider's
  -- resolved URL, cached and not expired or answered with the status 200; the ID token was decoded
  -- with the key of that set that its header names, for the provider's client, the resolved issuer
  -- and its algorithms, and its nonce is the one of the login. The claims of the userinfo endpoint
  -- override none of the ID token's and only add what it lacks.
  pub exchange_oidc_code-IsExchanged :
      (code redirect_uri : String) (claims : Dict) (c : Caches)
      → (exchange_oidc_code sha256 jwt remote now config code redirect_uri expected_nonce c).0
        ≡ ok claims
      → IsExchanged code redirect_uri claims c
  unfolding exchange_oidc_code
  exchange_oidc_code-IsExchanged code redirect_uri claims c h =
      let discover =
        λ (issuer : String). on_discovery (discover_oidc_metadata (bare remote) now issuer) in
      let (issuer, h1, r1) =
        bind-returns (lift (as_text (get_or config "issuer" (text "")))) _ c claims h in
      let (discovery, h2, r2) = bind-returns (discover issuer) _ c claims r1 in
      let d = (discover issuer c).1 in
      let (e, h3, r3) =
        bind-returns (lift (resolve_oidc_endpoints config discovery)) _ d claims r2 in
      let (a, h4, r4) =
        bind-returns
          (guard (truthy e.token_url && truthy e.jwks_url)
            (http 422 "OIDC provider missing token_endpoint or jwks_uri"))
          _ d claims r3 in
      let (token_url, h5, r5) = bind-returns (lift (as_text e.token_url)) _ d claims r4 in
      let (jwks_url, h6, r6) = bind-returns (lift (as_text e.jwks_url)) _ d claims r5 in
      let (answer, h7, r7) =
        bind-returns
          (lift (
            sent (
              remote.post token_url
                (code_form code redirect_uri (get_or config "client_id" (text ""))
                  (get_or config "client_secret" (text "")))
                none)))
          _ d claims r6 in
      let (b, h8, r8) =
        bind-returns (guard (answer.status_code == 200) (http 401 "IdP token exchange failed")) _ d
          claims r7 in
      let (tokens, h9, r9) =
        bind-returns (lift (payload_or (value_error "json") answer.body)) _ d claims r8 in
      record {
        issuer = issuer;
        configured = as_text-ok (get_or config "issuer" (text "")) issuer h1;
        discovery = discovery;
        discovered = h2;
        endpoints = e;
        are_resolved = h3;
        token_url = token_url;
        at_token_url = as_text-ok e.token_url token_url h5;
        jwks_url = jwks_url;
        at_jwks_url = as_text-ok e.jwks_url jwks_url h6;
        answer = answer;
        answered = sent-ok _ answer h7;
        accepted =
            is_200 answer.status_code
              (guard-ok (answer.status_code == 200) (http 401 "IdP token exchange failed") d b h8);
        tokens = tokens;
        are_tokens = payload_or-ok (value_error "json") answer.body tokens h9;
        are_claims = claims_of-AreClaimsOf e token_url jwks_url tokens claims d r9;
      }
