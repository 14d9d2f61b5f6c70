-- ===== src/Oauth/Issuing.antt =====
-- What a request has shown when the token endpoint answers it with a token, and what it is given.
use accelerator_pack_auth_se.Prelude.{
  both_true, String, List, [], ◌≡◌, refl, ap, sym, ◌∙◌, ◌&&◌, true, false, Option, none, some, ok,
  arith, ◌==◌, is_some, ◌<◌, ◌≢◌, ◌⊎◌, contains, Bool-cases, inl, inr, ok-injective,
}
use accelerator_pack_auth_se.Exec.{bind-returns}
use accelerator_pack_auth_se.Models.{Time}
use accelerator_pack_auth_se.Models.Rows.{ServiceAccount, SigningKey}
use accelerator_pack_auth_se.Models.Database.{Database}
use accelerator_pack_auth_se.External.{External}
use accelerator_pack_auth_se.Config.{Settings}
use accelerator_pack_auth_se.ScopeString.{parse_scope_string}
use accelerator_pack_auth_se.PackModels.{PackAuthModel}
use accelerator_pack_auth_se.Scopes.{
  scope_wildcard, resolve_account_scopes, Grant, granted, invalid_scope, grant_scopes,
  deserialize_scopes,
}
use accelerator_pack_auth_se.Audit.{log_audit}
use accelerator_pack_auth_se.Clients.{get_client_by_client_id, update_last_used}
use accelerator_pack_auth_se.Tokens.{
  FreshToken, client_claims, token_header, on_keys, create_client_access_token,
}
use accelerator_pack_auth_se.Keys.{get_active_signing_key}
use accelerator_pack_auth_se.StrMethods.{before, strip, lower_eq}
use accelerator_pack_auth_se.Oauth.{
  TokenRequest, Reply, invalid_client_response, attempted_basic, are_present, presented, precheck,
  parse_basic_auth, form_has_credentials, is_authentic, answer, serve, authenticate, oauth_token,
  on_accounts, scopes_for, token_reply,
}
use accelerator_pack_auth_se.Oauth.Passed.{
  not_empty, precheck-none, is_form_urlencoded-ok, asked_for, verify_secret-ok, is_client_usable-ok,
}

module _ (ext : External) (settings : Settings) (fresh : FreshToken) (now : Time)
    (request : TokenRequest) where
  -- What the request asked and showed, the account that it named, and the token that it is given.
  pub record IsIssue (reply : Reply) (db : Database) : Type 0 where
    content_type : String
    sent_type : request.content_type ≡ some content_type
    is_form : lower_eq (strip (before 0x3b content_type)) "application/x-www-form-urlencoded" ≡ true
    grant_type : request.grant_type ≡ some "client_credentials"
    enabled : settings.client_credentials_enabled ≡ true
    one_kind :
        (is_some (parse_basic_auth ext request.authorization) && form_has_credentials ext request)
        ≡ false
    given_id : (presented ext request).0 ≢ ""
    given_secret : (presented ext request).1 ≢ ""
    account : ServiceAccount
    known :
        (get_client_by_client_id (presented ext request).0 db.service_accounts).0
        ≡ ok (some account)
    authentic : ext.bcrypt.checkpw (presented ext request).1 account.client_secret_hash ≡ some true
    active : account.is_active ≡ true
    not_revoked : account.revoked_at ≡ none
    not_expired :
        (account.expires_at ≡ none) ⊎ ((at : Time) × (account.expires_at ≡ some at) × (now < at))
    scopes : List String
    within :
        grant_scopes
          (deserialize_scopes ext.json (some account.scopes))
          (parse_scope_string request.scope)
          settings.strict_scopes
        ≡ granted scopes
    key : SigningKey
    signing : (get_active_signing_key fresh.key now db.signing_keys).0 ≡ ok key
    answered :
        reply
        ≡ token_reply ext settings
            (ext.jwt.encode
              (client_claims settings account scopes fresh.jti now)
              key.private_pem
              (token_header key))
            scopes

  no_token :
      (reply : Reply)
      → ok (invalid_client_response (attempted_basic request)) ≡ ok reply
      → (reply.status == 200) ≡ true
      → ⊥
  no_token reply h s = absurd (ground (arith, ok-injective _ _ h))

  answer-issued :
      (account : ServiceAccount) (grant : Grant) (reply : Reply) (db : Database)
      → (answer ext settings fresh now request account grant db).0 ≡ ok reply
      → (reply.status == 200) ≡ true
      → (scopes : List String) × (token : String) × (grant ≡ granted scopes)
        × ((create_client_access_token ext settings fresh now account (some scopes) db).0
            ≡ ok token)
        × (reply ≡ token_reply ext settings token scopes)
  unfolding answer log_audit
  answer-issued account (granted scopes) reply db h s =
      let (token, minted, h1) =
        bind-returns (create_client_access_token ext settings fresh now account (some scopes)) _ db
          reply h in
      let (done, touched, h2) =
        bind-returns (on_accounts (update_last_used account.client_id request.host now)) _ _ reply
          h1 in
      (scopes, token, refl, minted, sym (ok-injective _ _ h2))
  answer-issued account (invalid_scope message) reply db h s = cc

  serve-issued :
      (found : Option ServiceAccount) (reply : Reply) (db : Database)
      → (serve ext settings fresh now request found db).0 ≡ ok reply
      → (reply.status == 200) ≡ true
      → (account : ServiceAccount) × (found ≡ some account)
        × (is_authentic ext now (presented ext request).1 (some account) ≡ true)
        × ((answer ext settings fresh now request account
              (scopes_for ext settings request account)
              db).0
            ≡ ok reply)
  unfolding serve
  serve-issued none reply db h s = cc
  serve-issued (some account) reply db h s =
      elim (Bool-cases (is_authentic ext now (presented ext request).1 (some account))) [
        | inl e ↦ (account, refl, e, (rw e at h))
        | inr e ↦ absurd (no_token reply (rw e at h) s)
      ]

  precheck-status :
      (reply : Reply) → precheck ext settings request ≡ some reply → (reply.status == 200) ≡ false
  unfolding precheck
  precheck-status reply h = ground arith

  create_client_access_token-ok :
      (account : ServiceAccount) (scopes : List String) (db : Database) (token : String)
      → (create_client_access_token ext settings fresh now account (some scopes) db).0 ≡ ok token
      → (key : SigningKey) × ((get_active_signing_key fresh.key now db.signing_keys).0 ≡ ok key)
        × (token
            ≡ ext.jwt.encode
                (client_claims settings account scopes fresh.jti now)
                key.private_pem
                (token_header key))
  unfolding create_client_access_token
  create_client_access_token-ok account scopes db token h =
      let (key, signing, h1) =
        bind-returns (on_keys (get_active_signing_key fresh.key now)) _ db token h in
      (key, signing, sym (ok-injective _ _ h1))

  -- The token endpoint answers with the status 200 only where the request is form-encoded, asks for
  -- the grant `client_credentials`, which is enabled, and gives one kind of credentials; these name an
  -- account whose secret bcrypt accepts and which is active, not revoked and not expired; the token is
  -- minted for it and signed with the active key, with the scopes that are granted to the request out
  -- of those that the account is stamped with, and the answer is that token.
  pub oauth_token-issued :
      (reply : Reply) (db : Database)
      → (oauth_token ext settings fresh now request db).0 ≡ ok reply
      → (reply.status == 200) ≡ true
      → IsIssue reply db
  unfolding oauth_token authenticate get_client_by_client_id is_authentic
  oauth_token-issued reply db h s = go (precheck ext settings request) refl h
    where
      go :
          (refusal : Option Reply)
          → precheck ext settings request ≡ refusal
          → (authenticate ext settings fresh now request refusal db).0 ≡ ok reply
          → IsIssue reply db
      go (some r) e h = absurd (ground (arith, precheck-status r e))
      go none e h = elim (Bool-cases (are_present (presented ext request))) [
        | inl p ↦
            let (found, looked_up, h1) =
              bind-returns (on_accounts (get_client_by_client_id (presented ext request).0)) _ db
                reply (rw p at h) in
            let (account, same, authentic, h2) = serve-issued found reply db h1 s in
            let (scopes, token, within, minted, answered) = answer-issued account _ reply db h2 s in
            let (key, signing, encoded) =
              create_client_access_token-ok account scopes db token minted in
            let (form, enabled, asked, one_kind) = precheck-none ext settings request e in
            let (content_type, sent_type, is_form) =
              is_form_urlencoded-ok request.content_type form in
            let (secret_ok, usable) = both_true _ _ authentic in
            let (active, not_revoked, not_expired) = is_client_usable-ok now account usable in
            let (given_id, given_secret) = both_true _ _ p in
            record {
              content_type = content_type;
              sent_type = sent_type;
              is_form = is_form;
              grant_type = asked_for request.grant_type "client_credentials" asked refl;
              enabled = enabled;
              one_kind = one_kind;
              given_id = not_empty _ given_id;
              given_secret = not_empty _ given_secret;
              account = account;
              known = looked_up ∙ ap ok same;
              authentic = verify_secret-ok ext.bcrypt _ _ secret_ok;
              active = active;
              not_revoked = not_revoked;
              not_expired = not_expired;
              scopes = scopes;
              within = within;
              key = key;
              signing = signing;
              answered = answered ∙ ap (λ t. token_reply ext settings t scopes) encoded;
            }
        | inr p ↦ absurd (no_token reply (rw p at h) s)
      ]

  -- An account that is stamped with the wildcard and names no scope is granted its stamped list as it
  -- is, the literal wildcard with it, where the principal resolver gives all scopes of the pack.
  pub scopes_for-wildcard :
      (account : ServiceAccount) (pack : PackAuthModel)
      → contains (deserialize_scopes ext.json (some account.scopes)) scope_wildcard ≡ true
      → parse_scope_string request.scope ≡ []
      → (scopes_for ext settings request account
          ≡ granted (deserialize_scopes ext.json (some account.scopes)))
        × (resolve_account_scopes ext.json account pack ≡ pack.permissions)
  unfolding grant_scopes resolve_account_scopes
  scopes_for-wildcard account pack stamped empty = (rw empty refl, rw stamped refl)
