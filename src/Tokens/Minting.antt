-- ===== src/Tokens/Minting.antt =====
-- Tokens that the service has minted, presented to it again.
use Prim.Native.String as Text
use text.Mathlib.TextLemmas.{cons-append}
use accelerator_pack_auth_se.Prelude.{
  ℕ, ◌+◌, ◌≤◌, ◌<◌, String, List, ◌≡◌, refl, ap, sym, ◌∙◌, subst, true, false, Option, none, some,
  Result, ok, err, value_error, arith, str_eq, any, select, length,
}
use accelerator_pack_auth_se.Exec.{bind-after, bind-goes}
use accelerator_pack_auth_se.Table.{any-select}
use accelerator_pack_auth_se.Models.{Time, seconds, minutes}
use accelerator_pack_auth_se.Models.Rows.{User, ServiceAccount, SigningKey}
use accelerator_pack_auth_se.Models.Database.{Database}
use accelerator_pack_auth_se.External.{External, Claims, IsSigned}
use accelerator_pack_auth_se.Config.{Settings}
use accelerator_pack_auth_se.Decimal.{str, int, int-str}
use accelerator_pack_auth_se.Scopes.{
  resolve_effective_user_scopes, fetch_user_role_permissions, assigned_permissions,
}
use accelerator_pack_auth_se.Keys.{Keys, has_kid, is_active, get_active_signing_key, get_key_by_kid}
use accelerator_pack_auth_se.Keys.Signing.{get_active_signing_key-found}
use accelerator_pack_auth_se.Tokens.{
  FreshToken, on_keys, timestamp, token_header, user_claims, client_claims, is_accepted, check_key,
  read_kid, read_sub, find_user, is_token_blacklisted, admit_claims, scopes_or_default,
  client_scopes_or_default, create_access_token, create_client_access_token, decode_token,
  get_current_user,
}
use accelerator_pack_auth_se.Tokens.Verification.{decode_token-state}

check_key-active :
    (now : Time) (key : SigningKey) → is_active key ≡ true → check_key now (some key) ≡ ok key
unfolding check_key is_accepted
check_key-active now key h = ground arith

read_kid-header :
    (key : SigningKey) → str_eq key.kid "" ≡ false → read_kid (some (token_header key)) ≡ ok key.kid
unfolding read_kid
read_kid-header key h = ground arith

read_sub-str : (id : ℕ) → read_sub (some (str id)) ≡ ok id
unfolding read_sub
read_sub-str id =
    ap
      (λ (r : Option ℕ). elim r as (λ x. Result ℕ) [
        | none ↦ err (value_error "int")
        | some n ↦ ok n
      ])
      (int-str id)

read_sub-client :
    (client_id : String) → read_sub (some (Text.◌++◌ "client:" client_id)) ≡ err (value_error "int")
unfolding read_sub int
read_sub-client client_id =
    ap (λ sub. read_sub (some sub)) (cons-append "c" "lient:" client_id) ∙ refused
  where
    refused :
        read_sub (some (Text.◌∷◌ "c" (Text.◌++◌ "lient:" client_id))) ≡ err (value_error "int")
    refused = refl

-- The state after the signing key was asked for.
abbrev with_keys : Keys → Database → Database
with_keys t db = record db { signing_keys = t }

module _ (ext : External) (settings : Settings) where
  decode_token-minted :
      (later : Time) (claims : Claims) (key : SigningKey) (exp : ℕ) (db : Database)
      → IsSigned ext.jwt claims key.private_pem key.public_pem (token_header key)
      → str_eq key.kid "" ≡ false
      → is_active key ≡ true
      → (get_key_by_kid key.kid db.signing_keys).0 ≡ ok (some key)
      → claims.iss ≡ some settings.issuer_url
      → claims.exp ≡ some exp
      → later < seconds exp
      → (decode_token ext settings later
          (ext.jwt.encode claims key.private_pem (token_header key))
          db).0
        ≡ ok claims
  unfolding decode_token get_key_by_kid
  decode_token-minted later claims key exp db law named active found iss expires time =
      rw
        (
          law.header-encode,
          read_kid-header key named,
          found,
          check_key-active later key active,
          law.decode-encode settings.issuer_url exp later iss expires time,
        )
        refl

  not_listed :
      (jti : String) (db : Database)
      → any (λ b. str_eq b.jti jti) db.token_blacklist.rows ≡ false
      → (is_token_blacklisted jti db.token_blacklist).0 ≡ ok false
  unfolding is_token_blacklisted
  not_listed jti db h = rw (any-select (λ b. str_eq b.jti jti) db.token_blacklist.rows h) refl

  admit_claims-user :
      (user : User) (scopes : List String) (jti : String) (now : Time) (db : Database)
      → str_eq jti "" ≡ false
      → any (λ b. str_eq b.jti jti) db.token_blacklist.rows ≡ false
      → (find_user user.id db).0 ≡ ok (some user)
      → user.is_active ≡ true
      → (admit_claims (user_claims settings user scopes jti now) db).0 ≡ ok user
  unfolding admit_claims find_user
  admit_claims-user user scopes jti now db named fresh found active =
      rw (named, not_listed jti db fresh, read_sub-str user.id, found, active) refl

  admit_claims-client :
      (client : ServiceAccount) (scopes : List String) (jti : String) (now : Time) (db : Database)
      → str_eq jti "" ≡ false
      → any (λ b. str_eq b.jti jti) db.token_blacklist.rows ≡ false
      → (admit_claims (client_claims settings client scopes jti now) db).0 ≡ err (value_error "int")
  unfolding admit_claims
  admit_claims-client client scopes jti now db named fresh =
      rw (named, not_listed jti db fresh, read_sub-client client.client_id) refl

  -- The round trip of an access token: a token is minted for an active user who is in the table,
  -- and it is accepted as that user until the second in which it expires, as long as its jti is
  -- there and not blacklisted. The signing key has a kid and verifies what it signs, and no two
  -- keys have one kid.
  pub get_current_user-minted :
      (fresh : FreshToken) (now later : Time) (user : User) (scopes : Option (List String))
      (key : SigningKey) (db : Database)
      → ((kid : String) → length (select (has_kid kid) db.signing_keys.rows) ≤ 1)
      → (get_active_signing_key fresh.key now db.signing_keys).0 ≡ ok key
      → IsSigned ext.jwt
          (user_claims settings user (scopes_or_default ext settings db user scopes) fresh.jti now)
          key.private_pem
          key.public_pem
          (token_header key)
      → str_eq key.kid "" ≡ false
      → str_eq fresh.jti "" ≡ false
      → any (λ b. str_eq b.jti fresh.jti) db.token_blacklist.rows ≡ false
      → (find_user user.id db).0 ≡ ok (some user)
      → user.is_active ≡ true
      → later < seconds (timestamp (now + minutes settings.access_token_expire_minutes))
      → let (minted, db') = create_access_token ext settings fresh now user scopes db in
        (token : String) × (minted ≡ ok token)
        × ((get_current_user ext settings later token db').0 ≡ ok user)
  unfolding create_access_token get_current_user find_user resolve_effective_user_scopes
      fetch_user_role_permissions assigned_permissions
  get_current_user-minted fresh now later user scopes key db unique signing law named fresh_jti
        unlisted known active time =
      let keys = (get_active_signing_key fresh.key now db.signing_keys).1 in
      let db' = with_keys keys db in
      let (found, key_active) =
        get_active_signing_key-found fresh.key now db.signing_keys key unique signing in
      let claims =
        user_claims settings user (scopes_or_default ext settings db user scopes) fresh.jti now in
      let token = ext.jwt.encode claims key.private_pem (token_header key) in
      let path = bind-goes (on_keys (get_active_signing_key fresh.key now)) _ db key signing in
      let decoded =
        decode_token-minted later claims key
          (timestamp (now + minutes settings.access_token_expire_minutes)) db' law named key_active
          found refl refl time in
      let admitted =
        admit_claims-user user (scopes_or_default ext settings db user scopes) fresh.jti now db'
          fresh_jti unlisted known active in
      (
        token,
        ap (λ r. r.0) path,
        subst (λ d. (get_current_user ext settings later token d).0 ≡ ok user)
            (sym (ap (λ r. r.1) path))
            (ap (λ r. r.0)
                (bind-after (decode_token ext settings later token) admit_claims db' claims
                  (decode_token-state ext settings later token) decoded)
              ∙ admitted),
      )

  -- A client's token at a route for users passes every check of the token, and then fails on its
  -- subject, which is not a number: the error is no answer with the status 401. The token has a
  -- jti that is not blacklisted and has not expired, the signing key has a kid and verifies what
  -- it signs, and no two keys have one kid.
  pub get_current_user-client :
      (fresh : FreshToken) (now later : Time) (client : ServiceAccount)
      (scopes : Option (List String)) (key : SigningKey) (db : Database)
      → ((kid : String) → length (select (has_kid kid) db.signing_keys.rows) ≤ 1)
      → (get_active_signing_key fresh.key now db.signing_keys).0 ≡ ok key
      → IsSigned ext.jwt
          (client_claims settings client
            (client_scopes_or_default ext settings client scopes)
            fresh.jti
            now)
          key.private_pem
          key.public_pem
          (token_header key)
      → str_eq key.kid "" ≡ false
      → str_eq fresh.jti "" ≡ false
      → any (λ b. str_eq b.jti fresh.jti) db.token_blacklist.rows ≡ false
      → later < seconds (timestamp (now + minutes settings.client_token_expire_minutes))
      → let (minted, db') = create_client_access_token ext settings fresh now client scopes db in
        (token : String) × (minted ≡ ok token)
        × ((get_current_user ext settings later token db').0 ≡ err (value_error "int"))
  unfolding create_client_access_token get_current_user
  get_current_user-client fresh now later client scopes key db unique signing law named fresh_jti
        unlisted time =
      let keys = (get_active_signing_key fresh.key now db.signing_keys).1 in
      let db' = with_keys keys db in
      let (found, key_active) =
        get_active_signing_key-found fresh.key now db.signing_keys key unique signing in
      let claims =
        client_claims settings client (client_scopes_or_default ext settings client scopes)
          fresh.jti now in
      let token = ext.jwt.encode claims key.private_pem (token_header key) in
      let path = bind-goes (on_keys (get_active_signing_key fresh.key now)) _ db key signing in
      let decoded =
        decode_token-minted later claims key
          (timestamp (now + minutes settings.client_token_expire_minutes)) db' law named key_active
          found refl refl time in
      (
        token,
        ap (λ r. r.0) path,
        subst (λ d. (get_current_user ext settings later token d).0 ≡ err (value_error "int"))
            (sym (ap (λ r. r.1) path))
            (ap (λ r. r.0)
                (bind-after (decode_token ext settings later token) admit_claims db' claims
                  (decode_token-state ext settings later token) decoded)
              ∙ admit_claims-client client (client_scopes_or_default ext settings client scopes)
                  fresh.jti now db' fresh_jti unlisted),
      )
