-- ===== src/Tokens.antt =====
-- The access tokens of auth.py: minting, verification, the blacklist, and the dependencies that
-- guard the routes. `now` is the instant of the request; `fresh` holds the random values it draws.
pub mod Verification
pub mod Admission
pub mod Guards
pub mod Minting
mod Tests
use accelerator_pack_auth_se.Prelude.{
  ℕ, ◌+◌, ◌-◌, ◌/◌, ◌*◌, String, List, [], ◌∷◌, Bool, true, false, not, ◌&&◌, ◌||◌, Option, none,
  some, Result, ok, err, Error, http, integrity_error, value_error, key_error, ltb, leb, ◌==◌,
  str_eq, any, select, is_empty, is_some, contains, difference, sorted, if◌then◌else◌,
}
use accelerator_pack_auth_se.Exec.{
  Exec, pure, raise, lift, gets, modify, guard, continue, zoom, ◌>>=◌, ◌>>◌,
}
use accelerator_pack_auth_se.Table.{Table, insert_row, scalar_one_or_none}
use accelerator_pack_auth_se.Models.{
  Time, minutes, PrincipalType, principal_value, role_value, is_admin, is_rotating_out, is_revoked,
  AuditResult, failure,
}
use accelerator_pack_auth_se.Models.Rows.{
  User, ServiceAccount, SigningKey, TokenBlacklist, AuditLog,
}
use accelerator_pack_auth_se.Models.Database.{Database}
use accelerator_pack_auth_se.External.{
  External, Header, Claims, Decoding, verified, expired_signature, invalid_token,
}
use accelerator_pack_auth_se.Config.{Settings}
use accelerator_pack_auth_se.Decimal.{str, int}
use accelerator_pack_auth_se.PackModels.{permissions_for_role}
use accelerator_pack_auth_se.PackModels.Registry.{load_active_model}
use accelerator_pack_auth_se.ScopeString.{join, split, text_or_empty}
use accelerator_pack_auth_se.Scopes.{resolve_effective_user_scopes, resolve_account_scopes}
use accelerator_pack_auth_se.Keys.{
  Keys, FreshKey, rotating_out_grace, get_active_signing_key, get_key_by_kid,
}
use accelerator_pack_auth_se.Permissions.{check_permission}
use accelerator_pack_auth_se.Audit.{PrincipalArg, typed, log_audit}
use Prim.Native.String as Text

abbrev pub on_keys : {A : Type 0} → Exec Keys A → Exec Database A
on_keys = zoom (λ d. d.signing_keys) (λ t d. record d { signing_keys = t })

abbrev pub on_blacklist : {A : Type 0} → Exec (Table TokenBlacklist) A → Exec Database A
on_blacklist = zoom (λ d. d.token_blacklist) (λ t d. record d { token_blacklist = t })

abbrev pub on_audit : {A : Type 0} → Exec (Table AuditLog) A → Exec Database A
on_audit = zoom (λ d. d.audit_logs) (λ t d. record d { audit_logs = t })

pub record FreshToken : Type 0 where
  pub key : FreshKey
  pub jti : String

abbrev pub access_token_typ : String
access_token_typ = "at+jwt"

abbrev pub user_token_client_id : String
user_token_client_id = "user-login"

abbrev pub unauthorized : String → Error
unauthorized detail = http 401 detail

-- A time claim: the seconds of an instant.
abbrev pub timestamp : Time → ℕ
timestamp t = t / 1000000

abbrev pub token_header : SigningKey → Header
token_header key = record { kid = some key.kid; typ = some access_token_typ }

abbrev pub user_claims : Settings → User → List String → String → Time → Claims
user_claims settings user scopes jti now = record {
  sub = some (str user.id);
  email = some user.email;
  role = some (role_value user.role);
  name = some user.name;
  scope = some (join scopes);
  type = some "access";
  principal_type = some (principal_value PrincipalType.user);
  client_id = some user_token_client_id;
  jti = some jti;
  iss = some settings.issuer_url;
  aud = settings.pack ∷ [];
  exp = some (timestamp (now + minutes settings.access_token_expire_minutes));
  iat = some (timestamp now);
}

abbrev pub client_claims : Settings → ServiceAccount → List String → String → Time → Claims
client_claims settings client scopes jti now = record {
  sub = some (Text.◌++◌ "client:" client.client_id);
  email = none;
  role = none;
  name = none;
  scope = some (join scopes);
  type = some "access";
  principal_type = some (principal_value PrincipalType.client);
  client_id = some client.client_id;
  jti = some jti;
  iss = some settings.issuer_url;
  aud = settings.pack ∷ [];
  exp = some (timestamp (now + minutes settings.client_token_expire_minutes));
  iat = some (timestamp now);
}

-- The key for a token whose key is verified: neither unknown nor revoked, and if it rotates out,
-- within the grace window.
unfoldable pub is_accepted : Time → SigningKey → Bool
is_accepted now key =
    if is_revoked key.status
    then false
    else if is_rotating_out key.status
    then elim key.rotated_at [ none ↦ false | some at ↦ not (leb (at + rotating_out_grace) now) ]
    else true

-- The refusals of `decode_token` that come before the signature is looked at.
unfoldable pub check_key : Time → Option SigningKey → Result SigningKey
check_key now none = err (unauthorized "Unknown or revoked signing key")
check_key now (some key) =
    if is_revoked key.status
    then err (unauthorized "Unknown or revoked signing key")
    else if is_accepted now key
    then ok key
    else err (unauthorized "Invalid token")

abbrev pub read_claims : Decoding → Result Claims
read_claims (verified claims) = ok claims
read_claims expired_signature = err (unauthorized "Token expired")
read_claims invalid_token = err (unauthorized "Invalid token")

unfoldable pub read_kid : Option Header → Result String
read_kid none = err (unauthorized "Invalid token")
read_kid (some h) =
    let kid = text_or_empty h.kid in
    if str_eq kid "" then err (unauthorized "Token missing kid header") else ok kid

unfoldable pub is_token_blacklisted : String → Exec (Table TokenBlacklist) Bool
is_token_blacklisted jti = do
  found ← λ t. (scalar_one_or_none (select (λ b. str_eq b.jti jti) t.rows), t)
  pure (is_some found)

-- The column `jti` is unique.
unfoldable pub blacklist_token : String → Time → Time → Exec (Table TokenBlacklist) Unit
blacklist_token jti expires_at now t =
    if any (λ b. str_eq b.jti jti) t.rows then (err integrity_error, t) else (
      ok tt,
      insert_row (λ id. record { id = id; jti = jti; expires_at = expires_at; created_at = now }) t,
    )

unfoldable pub find_user : ℕ → Exec Database (Option User)
find_user id db = (scalar_one_or_none (select (λ u. u.id == id) db.users.rows), db)

-- `payload["sub"]`, read by `int`.
unfoldable pub read_sub : Option String → Result ℕ
read_sub none = err (key_error "sub")
read_sub (some sub) = elim (int sub) [ none ↦ err (value_error "int") | some id ↦ ok id ]

abbrev pub active_user : Option User → Result User
active_user none = err (unauthorized "User not found or inactive")
active_user (some u) = if u.is_active then ok u else err (unauthorized "User not found or inactive")

-- What `get_current_user` does with the payload of a decoded token.
unfoldable pub admit_claims : Claims → Exec Database User
admit_claims payload = do
  guard (not (str_eq (text_or_empty payload.type) "refresh"))
      (unauthorized "Refresh tokens cannot be used for API access")
  let jti = text_or_empty payload.jti
  listed ← if str_eq jti "" then pure false else on_blacklist (is_token_blacklisted jti)
  guard (not listed) (unauthorized "Token has been revoked")
  id ← lift (read_sub payload.sub)
  user ← find_user id
  lift (active_user user)

module _ (ext : External) (settings : Settings) where
  abbrev pub scopes_or_default : Database → User → Option (List String) → List String
  scopes_or_default db user none =
      resolve_effective_user_scopes ext.json db user (load_active_model settings.pack)
  scopes_or_default db user (some scopes) = scopes

  unfoldable pub create_access_token :
      FreshToken → Time → User → Option (List String) → Exec Database String
  create_access_token fresh now user scopes = do
    key ← on_keys (get_active_signing_key fresh.key now)
    stamped ← gets (λ db. scopes_or_default db user scopes)
    pure (
        ext.jwt.encode (user_claims settings user stamped fresh.jti now) key.private_pem
          (token_header key))

  abbrev pub client_scopes_or_default : ServiceAccount → Option (List String) → List String
  client_scopes_or_default client none =
      resolve_account_scopes ext.json client (load_active_model settings.pack)
  client_scopes_or_default client (some scopes) = scopes

  unfoldable pub create_client_access_token :
      FreshToken → Time → ServiceAccount → Option (List String) → Exec Database String
  create_client_access_token fresh now client scopes = do
    key ← on_keys (get_active_signing_key fresh.key now)
    pure (
        ext.jwt.encode
          (client_claims settings client (client_scopes_or_default client scopes) fresh.jti now)
          key.private_pem (token_header key))

  unfoldable pub decode_token : Time → String → Exec Database Claims
  decode_token now token = do
    kid ← lift (read_kid (ext.jwt.get_unverified_header token))
    found ← on_keys (get_key_by_kid kid)
    key ← lift (check_key now found)
    lift (read_claims (ext.jwt.decode token key.public_pem settings.issuer_url now))

  unfoldable pub get_current_user : Time → String → Exec Database User
  get_current_user now token = do payload ← decode_token now token; admit_claims payload

  unfoldable pub require_admin : Time → String → Exec Database User
  require_admin now token = do
    user ← get_current_user now token
    guard (is_admin user.role) (http 403 "Admin access required")
    pure user

  unfoldable pub require_permission : String → Time → String → Exec Database User
  require_permission codename now token = do
    user ← get_current_user now token
    db ← gets (λ db. db)
    has_perm ← lift (check_permission db user codename none none)
    guard has_perm (http 403 (Text.◌++◌ "Missing required permission: " codename))
    pure user

  unfoldable pub require_pack_permission : String → Time → String → Exec Database User
  require_pack_permission codename now token = do
    user ← get_current_user now token
    guard
        (is_admin user.role
          || contains
              (permissions_for_role (load_active_model settings.pack) (role_value user.role))
              codename)
        (http 403 (Text.◌++◌ "Missing required permission: " codename))
    pure user

  unfoldable pub deny_scopes : Time → User → List String → Exec Database User
  deny_scopes now user missing = do
    let missing_joined = join (sorted missing)
    on_audit (
        log_audit (some user.id) "scope_denied" missing_joined (typed PrincipalType.user)
          (some (str user.id)) (some failure) now)
    raise (http 403 (Text.◌++◌ "Missing required scopes: " missing_joined))

  unfoldable pub require_scope : List String → Time → String → Exec Database User
  unfolding deny_scopes
  require_scope required_scopes now token = do
    user ← get_current_user now token
    payload ← decode_token now token
    let missing = difference required_scopes (split (text_or_empty payload.scope))
    if is_empty missing then pure user else deny_scopes now user missing
