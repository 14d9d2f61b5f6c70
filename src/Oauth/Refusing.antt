-- ===== src/Oauth/Refusing.antt =====
-- The answers of the token endpoint that carry no token.
use accelerator_pack_auth_se.Prelude.{
  String, List, [], ◌++◌, ◌≡◌, refl, ap, sym, ◌∙◌, false, ◌&&◌, Option, none, some, ok, arith,
  Bool-cases, inl, inr, ok-injective,
}
use accelerator_pack_auth_se.Exec.{bind-returns}
use accelerator_pack_auth_se.Models.{Time}
use accelerator_pack_auth_se.Models.Rows.{ServiceAccount}
use accelerator_pack_auth_se.Models.Database.{Database}
use accelerator_pack_auth_se.External.{External}
use accelerator_pack_auth_se.Config.{Settings}
use accelerator_pack_auth_se.Scopes.{Grant, granted, invalid_scope}
use accelerator_pack_auth_se.Clients.{get_client_by_client_id, update_last_used}
use accelerator_pack_auth_se.Audit.{log_audit}
use accelerator_pack_auth_se.Tokens.{FreshToken, create_client_access_token}
use accelerator_pack_auth_se.Oauth.{
  TokenRequest, Reply, no_store_headers, invalid_client_response, attempted_basic, are_present,
  presented, precheck, is_authentic, answer, serve, authenticate, oauth_token, on_accounts,
  scopes_for,
}

module _ (ext : External) (settings : Settings) (fresh : FreshToken) (now : Time)
    (request : TokenRequest) where
  serve-refused :
      (found : Option ServiceAccount) (db : Database)
      → is_authentic ext now (presented ext request).1 found ≡ false
      → serve ext settings fresh now request found db
        ≡ (ok (invalid_client_response (attempted_basic request)), db)
  unfolding serve
  serve-refused none db h = refl
  serve-refused (some account) db h = rw h

  -- Whatever is wrong with the credentials (a part is missing, the client is unknown, the secret is
  -- not its own, the account is inactive, revoked or expired), a request that passes the earlier checks
  -- gets one and the same answer, and nothing is changed.
  pub oauth_token-invalid_client :
      (found : Option ServiceAccount) (db : Database)
      → precheck ext settings request ≡ none
      → (get_client_by_client_id (presented ext request).0 db.service_accounts).0 ≡ ok found
      → (are_present (presented ext request)
          && is_authentic ext now (presented ext request).1 found)
        ≡ false
      → oauth_token ext settings fresh now request db
        ≡ (ok (invalid_client_response (attempted_basic request)), db)
  unfolding oauth_token authenticate get_client_by_client_id
  oauth_token-invalid_client found db passed looked_up refused =
      rw passed (elim (Bool-cases (are_present (presented ext request))) [
        | inl e ↦ rw (e, looked_up) (serve-refused found db (ground arith))
        | inr e ↦ rw e refl
      ])

  HasNoStore : Reply → Type 0
  HasNoStore reply = (rest : List (String × String)) × (reply.headers ≡ no_store_headers ++ rest)

  answer-HasNoStore :
      (account : ServiceAccount) (grant : Grant) (reply : Reply) (db : Database)
      → (answer ext settings fresh now request account grant db).0 ≡ ok reply
      → HasNoStore reply
  unfolding answer HasNoStore log_audit
  answer-HasNoStore account (granted scopes) reply db h =
      let (token, minted, h1) =
        bind-returns (create_client_access_token ext settings fresh now account (some scopes)) _ db
          reply h in
      let (done, touched, h2) =
        bind-returns (on_accounts (update_last_used account.client_id request.host now)) _ _ reply
          h1 in
      ([], ap (λ r. r.headers) (sym (ok-injective _ _ h2)))
  answer-HasNoStore account (invalid_scope message) reply db h =
      ([], ap (λ r. r.headers) (sym (ok-injective _ _ h)))

  serve-HasNoStore :
      (found : Option ServiceAccount) (reply : Reply) (db : Database)
      → (serve ext settings fresh now request found db).0 ≡ ok reply
      → HasNoStore reply
  unfolding serve HasNoStore
  serve-HasNoStore none reply db h = (_, ap (λ r. r.headers) (sym (ok-injective _ _ h)))
  serve-HasNoStore (some account) reply db h =
      elim (Bool-cases (is_authentic ext now (presented ext request).1 (some account))) [
        | inl e ↦
            answer-HasNoStore account (scopes_for ext settings request account) reply db (rw e at h)
        | inr e ↦ (_, ap (λ r. r.headers) (sym (ok-injective _ _ (rw e at h))))
      ]

  precheck-headers :
      (reply : Reply)
      → precheck ext settings request ≡ some reply
      → reply.headers ≡ no_store_headers
  unfolding precheck
  precheck-headers reply h = ground arith

  -- Every answer of the token endpoint, with a token or with an error of any kind, forbids caching.
  pub oauth_token-no_store :
      (reply : Reply) (db : Database)
      → (oauth_token ext settings fresh now request db).0 ≡ ok reply
      → (rest : List (String × String)) × (reply.headers ≡ no_store_headers ++ rest)
  unfolding oauth_token authenticate HasNoStore get_client_by_client_id
  oauth_token-no_store reply db h = go (precheck ext settings request) refl h
    where
      go :
          (refusal : Option Reply)
          → precheck ext settings request ≡ refusal
          → (authenticate ext settings fresh now request refusal db).0 ≡ ok reply
          → HasNoStore reply
      go (some r) e h = ([], ap (λ r. r.headers) (sym (ok-injective _ _ h)) ∙ precheck-headers r e)
      go none e h = elim (Bool-cases (are_present (presented ext request))) [
        | inl p ↦
            let (found, looked_up, h1) =
              bind-returns (on_accounts (get_client_by_client_id (presented ext request).0)) _ db
                reply (rw p at h) in
            serve-HasNoStore found reply db h1
        | inr p ↦ (_, ap (λ r. r.headers) (sym (ok-injective _ _ (rw p at h))))
      ]
