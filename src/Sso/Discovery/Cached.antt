-- ===== src/Sso/Discovery/Cached.antt =====
-- How long a discovery document is used without asking the provider again.
use accelerator_pack_auth_se.Prelude.{
  String, ◌≡◌, refl, ap, ◌<◌, ◌+◌, none, some, Result, ok, err, ltb, arith, eq_refl, ok-injective,
  ◌∷◌, true,
}
use accelerator_pack_auth_se.Values.{Dict}
use accelerator_pack_auth_se.Models.{Time}
use accelerator_pack_auth_se.Sso.Discovery.{
  discovery_url, Fetch, DiscoveryCache, cached, discovery_cache_ttl, read_metadata, fetch_metadata,
  put_metadata, from_cache, discover_oidc_metadata,
}

cached-first :
    (issuer : String) (expires : Time) (metadata : Dict) (cache : DiscoveryCache)
    → cached ((issuer, (expires, metadata)) ∷ cache) issuer ≡ some (expires, metadata)
unfolding cached
cached-first issuer expires metadata cache = rw (eq_refl issuer) refl

-- A discovery document that was fetched is used for an hour without asking the provider again: whatever
-- the provider would answer, the next discovery returns the same document. The condition is that the
-- cache had no document of the issuer before.
pub discover_oidc_metadata-cached :
    (fetch fetch' : Fetch) (now later : Time) (issuer : String) (cache : DiscoveryCache)
    (metadata : Dict)
    → cached cache issuer ≡ none
    → (discover_oidc_metadata fetch now issuer cache).0 ≡ ok metadata
    → later < now + discovery_cache_ttl
    → discover_oidc_metadata fetch' later issuer (discover_oidc_metadata fetch now issuer cache).1
      ≡ (ok metadata, (discover_oidc_metadata fetch now issuer cache).1)
unfolding discover_oidc_metadata fetch_metadata
discover_oidc_metadata-cached fetch fetch' now later issuer cache metadata fresh h soon =
    rw fresh (again (read_metadata (fetch (discovery_url issuer))) (rw fresh at h))
  where
    again :
        (r : Result Dict)
        → (put_metadata issuer now r cache).0 ≡ ok metadata
        → from_cache
            (cached (put_metadata issuer now r cache).1 issuer)
            later
            (fetch_metadata fetch' later issuer)
            (put_metadata issuer now r cache).1
          ≡ (ok metadata, (put_metadata issuer now r cache).1)
    again (err e) g = cc
    again (ok found) g =
        let hit : ltb later (now + discovery_cache_ttl) ≡ true = ground arith in
        let same : found ≡ metadata = ok-injective found metadata g in
        rw (cached-first issuer (now + discovery_cache_ttl) found cache, hit)
          (ap (λ d. (ok d, (issuer, (now + discovery_cache_ttl, found)) ∷ cache)) same)
