-- ===== src/Sso/Providers.antt =====
-- The handlers of main.py for identity providers and claim mappings, which only an administrator may
-- call, and the public list of providers. `answer` is what the identity provider answers to a GET in the
-- course of the request, and `mono` the instant of the monotonic clock.
pub mod Handlers
use accelerator_pack_auth_se.Prelude.{
  ℕ, String, List, [], ◌∷◌, Bool, true, false, not, ◌&&◌, ◌||◌, Option, none, some, Result, ok, err,
  Error, http, integrity_error, ◌==◌, str_eq, all, any, select, map, is_some, if◌then◌else◌,
}
use accelerator_pack_auth_se.Exec.{
  Exec, found_or, pure, raise, lift, gets, modify, guard, zoom, ◌>>=◌, ◌>>◌,
}
use accelerator_pack_auth_se.Table.{Table, insert_row, update_where, delete_where, order_desc}
use accelerator_pack_auth_se.Values.{Value, truthy, as_text, Dict, get}
use accelerator_pack_auth_se.Models.{Time, ProviderType, oidc, saml}
use accelerator_pack_auth_se.Models.Rows.{User, DbRole}
use accelerator_pack_auth_se.Models.Federation.{IdentityProvider, ClaimRoleMapping}
use accelerator_pack_auth_se.Models.Database.{Database}
use accelerator_pack_auth_se.External.{External}
use accelerator_pack_auth_se.Config.{Settings}
use accelerator_pack_auth_se.Decimal.{str}
use accelerator_pack_auth_se.Queries.{one_where, refers}
use accelerator_pack_auth_se.Tokens.{require_admin}
use accelerator_pack_auth_se.Admin.{audit_as}
use accelerator_pack_auth_se.Roles.{or_keep, find_role, role_not_found}
use accelerator_pack_auth_se.Sso.Discovery.{Fetch, DiscoveryCache, discover_oidc_metadata}
use Prim.Native.String as Text

-- The database and what the process keeps beside it.
pub record Process : Type 0 where
  pub database : Database
  pub discovery_cache : DiscoveryCache

abbrev pub on_database : {A : Type 0} → Exec Database A → Exec Process A
on_database = zoom (λ p. p.database) (λ db p. record p { database = db })

abbrev pub on_discovery : {A : Type 0} → Exec DiscoveryCache A → Exec Process A
on_discovery = zoom (λ p. p.discovery_cache) (λ c p. record p { discovery_cache = c })

pub record ProviderCreate : Type 0 where
  pub type : ProviderType
  pub name : String
  pub slug : String
  pub config : Dict
  pub tenant_id : Option ℕ
  pub is_active : Bool
  pub priority : ℕ

pub record ProviderUpdate : Type 0 where
  pub name : Option String
  pub config : Option Dict
  pub is_active : Option Bool
  pub priority : Option ℕ

pub record ClaimMappingCreate : Type 0 where
  pub claim_key : String
  pub claim_value_pattern : String
  pub role_id : ℕ
  pub priority : ℕ
  pub is_regex : Bool

abbrev pub provider_not_found : Error
provider_not_found = http 404 "Provider not found"

abbrev pub oidc_override_keys : List String
oidc_override_keys = "token_url" ∷ "userinfo_url" ∷ "jwks_url" ∷ "authorize_url" ∷ []

-- A provider of type OIDC is asked for its discovery document, unless all endpoints are configured.
unfoldable pub prefetch_oidc_discovery :
    Fetch → Time → ProviderType → Dict → Exec DiscoveryCache Unit
prefetch_oidc_discovery answer mono saml config = pure tt
prefetch_oidc_discovery answer mono oidc config =
    if all (λ key. truthy (get config key)) oidc_override_keys
    then pure tt
    else (guard (truthy (get config "issuer"))
          (http 422 "OIDC provider config must include 'issuer' or full endpoint overrides")
        >> (lift (as_text (get config "issuer")) >>= λ issuer.
            discover_oidc_metadata answer mono issuer >>= λ metadata. pure tt))

abbrev pub new_provider : ProviderCreate → Time → ℕ → IdentityProvider
new_provider req now id = record {
  id = id;
  tenant_id = req.tenant_id;
  type = req.type;
  name = req.name;
  slug = req.slug;
  config = req.config;
  is_active = req.is_active;
  priority = req.priority;
  created_at = now;
}

abbrev pub has_slug : String → IdentityProvider → Bool
has_slug slug p = str_eq p.slug slug

-- The commit of a new provider: the slug is unique, and the tenant a foreign key.
unfoldable pub add_provider : (ℕ → IdentityProvider) → Exec Database IdentityProvider
add_provider row db =
    let provider = row db.identity_providers.next_id in
    if any (has_slug provider.slug) db.identity_providers.rows
      || not (refers (λ t. t.id) db.tenants.rows provider.tenant_id)
    then (err integrity_error, db)
    else (ok provider, record db { identity_providers = insert_row row db.identity_providers })

abbrev pub apply_provider_update : ProviderUpdate → IdentityProvider → IdentityProvider
apply_provider_update req p = record p {
  name = or_keep req.name p.name;
  config = or_keep req.config p.config;
  is_active = or_keep req.is_active p.is_active;
  priority = or_keep req.priority p.priority;
}

unfoldable pub save_provider : IdentityProvider → Database → Database
save_provider provider db = record db {
  identity_providers = record (db.identity_providers) {
    rows = update_where (λ p. p.id == provider.id) (λ p. provider) db.identity_providers.rows;
  };
}

-- `db.delete(provider)`, with the rows that refer to the provider.
unfoldable pub drop_provider : ℕ → Database → Database
drop_provider provider_id db = record db {
  identity_providers = record (db.identity_providers) {
    rows = delete_where (λ p. p.id == provider_id) db.identity_providers.rows;
  };
  external_identities = record (db.external_identities) {
    rows = delete_where (λ l. l.provider_id == provider_id) db.external_identities.rows;
  };
  claim_role_mappings = record (db.claim_role_mappings) {
    rows = delete_where (λ m. m.provider_id == provider_id) db.claim_role_mappings.rows;
  };
  sso_state = record (db.sso_state) {
    rows = delete_where (λ s. s.provider_id == provider_id) db.sso_state.rows;
  };
}

abbrev pub find_provider : ℕ → Exec Database (Option IdentityProvider)
find_provider provider_id = one_where (λ db. db.identity_providers) (λ p. p.id == provider_id)

abbrev pub new_mapping : ℕ → ClaimMappingCreate → ℕ → ClaimRoleMapping
new_mapping provider_id req id = record {
  id = id;
  provider_id = provider_id;
  claim_key = req.claim_key;
  claim_value_pattern = req.claim_value_pattern;
  role_id = req.role_id;
  priority = req.priority;
  is_regex = req.is_regex;
}

unfoldable pub add_mapping : (ℕ → ClaimRoleMapping) → Exec Database ClaimRoleMapping
add_mapping row db = (
  ok (row db.claim_role_mappings.next_id),
  record db { claim_role_mappings = insert_row row db.claim_role_mappings },
)

unfoldable pub drop_mapping : ℕ → Database → Database
drop_mapping mapping_id db = record db {
  claim_role_mappings = record (db.claim_role_mappings) {
    rows = delete_where (λ m. m.id == mapping_id) db.claim_role_mappings.rows;
  };
}

abbrev pub is_mapping : ℕ → ℕ → ClaimRoleMapping → Bool
is_mapping provider_id mapping_id m = m.id == mapping_id && m.provider_id == provider_id

pub record PublicProvider : Type 0 where
  pub id : ℕ
  pub type : ProviderType
  pub name : String
  pub slug : String

unfoldable pub list_public_providers : Exec Database (List PublicProvider)
list_public_providers = gets (λ db.
    map (λ p. record { id = p.id; type = p.type; name = p.name; slug = p.slug })
      (order_desc (λ p. p.priority) (select (λ p. p.is_active) db.identity_providers.rows)))
