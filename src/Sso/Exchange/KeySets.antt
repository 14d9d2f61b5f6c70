-- ===== src/Sso/Exchange/KeySets.antt =====
-- Where the key set of an identity provider comes from: `_fetch_jwks` and its cache.
use accelerator_pack_auth_se.Prelude.{
  String, ◌≡◌, ap, ◌∙◌, true, Option, none, some, ok, http, ◌==◌, refl, List, ltb, ◌<◌, ℕ, Error,
  arith, Bool-cases, inl, inr, ok-injective,
}
use accelerator_pack_auth_se.Exec.{
  Exec, guard, lift, pure, raise, modify, found_or, bind-returns, guard-ok, ◌>>=◌, ◌>>◌,
}
use accelerator_pack_auth_se.Values.{Value, Dict}
use accelerator_pack_auth_se.Models.{Time}
use accelerator_pack_auth_se.Sso.Discovery.{Body, object, another, malformed, Response}
use accelerator_pack_auth_se.Sso.Exchange.{
  Remote, KeySet, IdTokens, Caches, fetch_jwks, get_jwks, client_credentials_token, cached_keys,
  unless_cached, put_keys, sent, payload_or,
}

pub sent-ok : (o : Option Response) (r : Response) → sent o ≡ ok r → o ≡ some r
sent-ok none r h = cc
sent-ok (some a) r h = ap some (ok-injective a r h)

pub payload_or-ok : (e : Error) (b : Body) (d : Dict) → payload_or e b ≡ ok d → b ≡ object d
payload_or-ok e malformed d h = cc
payload_or-ok e another d h = cc
payload_or-ok e (object a) d h = ap object (ok-injective a d h)

pub is_200 : (status : ℕ) → (status == 200) ≡ true → status ≡ 200
is_200 status h = ground arith

module _ (sha256 : String → String) (jwt : IdTokens) (remote : Remote) (now : Time) where
  -- The key set is in the cache for the URL and not expired, or it is what the URL answers with the
  -- status 200 to a GET, with a bearer token or without.
  pub data IsKeySetOf (jwks_url : String) (jwks : KeySet) (cache : List (String × (Time × KeySet)))
      : Type 0 where
    is_cached :
        (expires : Time)
        → cached_keys cache jwks_url ≡ some (expires, jwks)
        → now < expires
        → IsKeySetOf jwks_url jwks cache
    is_answered :
        (bearer : Option String) (answer : Response)
        → remote.fetch jwks_url bearer ≡ some answer
        → answer.status_code ≡ 200
        → jwt.key_set answer.body ≡ some jwks
        → IsKeySetOf jwks_url jwks cache

  get_jwks-ok :
      (jwks_url : String) (fallback : Option (String × (String × (String × Value)))) (c : Caches)
      (answer : Response)
      → (get_jwks sha256 jwt remote now jwks_url fallback c).0 ≡ ok answer
      → (bearer : Option String) × (remote.fetch jwks_url bearer ≡ some answer)
  unfolding get_jwks
  get_jwks-ok jwks_url none c answer h = (none, sent-ok _ answer h)
  get_jwks-ok jwks_url (some (token_url, (client_id, (client_secret, scope)))) c answer h =
      let (first, h1, r1) = bind-returns (lift (sent (remote.fetch jwks_url none))) _ c answer h in
      elim (Bool-cases (first.status_code == 401)) [
        | inl e ↦
            let (bearer, h2, r2) =
              bind-returns
                (client_credentials_token sha256 jwt remote now token_url client_id client_secret
                  scope)
                _ c answer (rw e at r1) in
            (some bearer, sent-ok _ answer r2)
        | inr e ↦
            let same : first ≡ answer = ok-injective first answer (rw e at r1) in
            (none, sent-ok _ first h1 ∙ ap some same)
      ]

  pub fetch_jwks-IsKeySetOf :
      (jwks_url : String) (fallback : Option (String × (String × (String × Value)))) (c : Caches)
      (jwks : KeySet)
      → (fetch_jwks sha256 jwt remote now jwks_url fallback c).0 ≡ ok jwks
      → IsKeySetOf jwks_url jwks c.jwks_cache
  unfolding fetch_jwks
  fetch_jwks-IsKeySetOf jwks_url fallback c jwks h = go (cached_keys c.jwks_cache jwks_url) refl h
    where
      ask : Exec Caches KeySet
      ask = get_jwks sha256 jwt remote now jwks_url fallback >>= λ resp.
          guard (resp.status_code == 200) (http 401 "JWKS fetch failed")
          >> found_or (raise (http 401 "Invalid JWKS payload from IdP")) (jwt.key_set resp.body)
              λ keys. modify (put_keys sha256 jwt remote jwks_url now keys) >> pure keys

      read :
          (found : Option KeySet) (c : Caches)
          → (found_or
              (raise (http 401 "Invalid JWKS payload from IdP"))
              found
              (λ keys. modify (put_keys sha256 jwt remote jwks_url now keys) >> pure keys)
              c).0
            ≡ ok jwks
          → found ≡ some jwks
      read none c h = cc
      read (some keys) c h = ap some (ok-injective keys jwks h)

      asked : (ask c).0 ≡ ok jwks → IsKeySetOf jwks_url jwks c.jwks_cache
      asked h =
          let (answer, h1, r1) =
            bind-returns (get_jwks sha256 jwt remote now jwks_url fallback) _ c jwks h in
          let (done, h2, r2) =
            bind-returns (guard (answer.status_code == 200) (http 401 "JWKS fetch failed")) _ _ jwks
              r1 in
          let (bearer, fetched) = get_jwks-ok jwks_url fallback c answer h1 in
          is_answered bearer answer fetched
            (is_200 answer.status_code
              (guard-ok (answer.status_code == 200) (http 401 "JWKS fetch failed") c done h2))
            (read (jwt.key_set answer.body) _ r2)

      go :
          (entry : Option (Time × KeySet))
          → cached_keys c.jwks_cache jwks_url ≡ entry
          → (unless_cached entry now ask c).0 ≡ ok jwks
          → IsKeySetOf jwks_url jwks c.jwks_cache
      go none e h = asked h
      go (some (expires, keys)) e h = elim (Bool-cases (ltb now expires)) [
        | inl fresh ↦
            let same : keys ≡ jwks = ok-injective keys jwks (rw fresh at h) in
            is_cached expires (e ∙ ap (λ k. some (expires, k)) same) (ground arith)
        | inr stale ↦ asked (rw stale at h)
      ]
