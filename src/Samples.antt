-- ===== src/Samples.antt =====
-- Concrete data for the tests: small stand-ins for what the service calls, a user, a key and a database.
use accelerator_pack_auth_se.Prelude.{String, [], ◌∷◌, ◌≡◌, refl, true, false, none, some, str_eq}
use Prim.Native.String as Text
use accelerator_pack_auth_se.Models.{Time, Role, SigningKeyStatus}
use accelerator_pack_auth_se.Models.Rows.{
  User, SigningKey, RefreshToken, ServiceAccount, DbRole, Permission,
}
use accelerator_pack_auth_se.Models.Database.{Database, empty_database}
use accelerator_pack_auth_se.External.{
  JsonCodec, items, Bcrypt, Claims, verified, Jwt, External, IsSigned, IsPayload,
}
use accelerator_pack_auth_se.Config.{Settings, default_settings}
use accelerator_pack_auth_se.ScopeString.{split, join, text_or_empty}
use accelerator_pack_auth_se.Tokens.{FreshToken, token_header, user_claims}
use accelerator_pack_auth_se.Keys.{FreshKey}

-- A list is encoded as its elements, each preceded by a space.
abbrev pub json : JsonCodec
json = record { dumps = λ xs. Text.◌++◌ " " (join xs); loads = λ s. some (items (split s)) }

abbrev pub bcrypt : Bcrypt
bcrypt = record { hashpw = λ plain salt. plain; checkpw = λ plain hash. some (str_eq plain hash) }

-- A token is the kid of its header; its claims are fixed.
abbrev pub jwt : Claims → Jwt
jwt claims = record {
  encode = λ c private_pem h. text_or_empty h.kid;
  get_unverified_header = λ token. some (record { kid = some token; typ = some "at+jwt" });
  decode = λ token public_pem issuer now. verified claims;
}

abbrev pub ext_with : Claims → External
ext_with claims = record {
  json = json;
  bcrypt = bcrypt;
  sha256 = λ s. s;
  b64decode = λ s. some s;
  jwt = jwt claims;
}

abbrev pub settings : Settings
settings = record default_settings { issuer_url = "https://auth" }

abbrev pub now : Time
now = 100000000000

abbrev pub alice : User
alice = record {
  id = 1;
  email = "alice@example.com";
  name = "Alice";
  password_hash = "secret";
  role = Role.user;
  is_active = true;
  created_at = 0;
  allowed_scopes = none;
}

abbrev pub key : SigningKey
key = record {
  id = 1;
  kid = "k1";
  algorithm = "RS256";
  public_pem = "public";
  private_pem = "private";
  status = SigningKeyStatus.active;
  created_at = 0;
  rotated_at = none;
  revoked_at = none;
}

abbrev pub robot : ServiceAccount
robot = record {
  id = 1;
  client_id = "cli_1";
  client_secret_hash = "csk_1";
  name = "robot";
  description = none;
  scopes = "*";
  owner_user_id = 1;
  is_active = true;
  expires_at = none;
  created_at = 0;
  revoked_at = none;
  last_used_at = none;
  last_used_ip = none;
}

abbrev pub session : RefreshToken
session = record {
  id = 1;
  user_id = 1;
  token_hash = "r1";
  expires_at = 200000000000;
  revoked = false;
  created_at = 0;
}

abbrev pub db : Database
db = record empty_database {
  users = record { rows = alice ∷ []; next_id = 2 };
  signing_keys = record { rows = key ∷ []; next_id = 2 };
  refresh_tokens = record { rows = session ∷ []; next_id = 2 };
  service_accounts = record { rows = robot ∷ []; next_id = 2 };
}

-- The same, where Alice is an administrator.
abbrev pub boss : User
boss = record alice { role = Role.admin }

abbrev pub editor : DbRole
editor = record {
  id = 1;
  tenant_id = none;
  name = "editor";
  description = none;
  is_system = false;
  is_default = false;
  created_at = 0;
}

abbrev pub write : Permission
write = record { id = 1; codename = "write"; description = none; resource_type = none }

abbrev pub admin_db : Database
admin_db = record db {
  users = record { rows = boss ∷ []; next_id = 2 };
  roles = record { rows = editor ∷ []; next_id = 2 };
  permissions = record { rows = write ∷ []; next_id = 2 };
}

abbrev pub fresh_key : FreshKey
fresh_key = record { kid = "k2"; public_pem = "public2"; private_pem = "private2" }

abbrev pub fresh_token : FreshToken
fresh_token = record { key = fresh_key; jti = "j1" }

abbrev pub alice_claims : Claims
alice_claims = user_claims settings alice ("read" ∷ []) "j1" now

abbrev pub ext : External
ext = ext_with alice_claims

abbrev pub payload : String → Claims
payload token = alice_claims

pub payload-IsPayload : IsPayload ext.jwt payload
payload-IsPayload = record {
  own = λ token public_pem issuer now c h. verified_injective alice_claims c h;
}
  where
    verified_injective : (a b : Claims) → verified a ≡ verified b → b ≡ a
    verified_injective a b h = cc

pub signed : IsSigned ext.jwt alice_claims key.private_pem key.public_pem (token_header key)
signed = record { header-encode = refl; decode-encode = λ issuer exp now iss expires time. refl }
