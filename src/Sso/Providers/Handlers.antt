-- ===== src/Sso/Providers/Handlers.antt =====
-- The handlers of main.py for identity providers and claim mappings.
use accelerator_pack_auth_se.Prelude.{ℕ, String, List, Option, none, some, ◌==◌, is_some, not, http}
use accelerator_pack_auth_se.Exec.{Exec, found_or, pure, raise, gets, modify, guard, ◌>>=◌, ◌>>◌}
use accelerator_pack_auth_se.Table.{order_desc}
use accelerator_pack_auth_se.Values.{Dict}
use accelerator_pack_auth_se.Models.{Time, ProviderType}
use accelerator_pack_auth_se.Models.Federation.{IdentityProvider, ClaimRoleMapping}
use accelerator_pack_auth_se.Models.Database.{Database}
use accelerator_pack_auth_se.External.{External}
use accelerator_pack_auth_se.Config.{Settings}
use accelerator_pack_auth_se.Decimal.{str}
use accelerator_pack_auth_se.Queries.{one_where}
use accelerator_pack_auth_se.Tokens.{require_admin}
use accelerator_pack_auth_se.Admin.{audit_as}
use accelerator_pack_auth_se.Roles.{role_not_found}
use accelerator_pack_auth_se.Sso.Discovery.{Fetch}
use accelerator_pack_auth_se.Sso.Mappings.{provider_mappings}
use accelerator_pack_auth_se.Sso.Providers.{
  Process, on_database, on_discovery, ProviderCreate, ProviderUpdate, ClaimMappingCreate,
  provider_not_found, prefetch_oidc_discovery, new_provider, has_slug, add_provider,
  apply_provider_update, save_provider, drop_provider, find_provider, new_mapping, add_mapping,
  drop_mapping, is_mapping,
}
use Prim.Native.String as Text

module _ (ext : External) (settings : Settings) where
  unfoldable pub list_providers : Time → String → Exec Database (List IdentityProvider)
  list_providers now token = do
    admin ← require_admin ext settings now token
    gets (λ db. order_desc (λ p. p.priority) db.identity_providers.rows)

  unfoldable pub create_provider :
      Fetch → Time → Time → String → ProviderCreate → Exec Process IdentityProvider
  create_provider answer mono now token req = do
    admin ← on_database (require_admin ext settings now token)
    existing ← on_database (one_where (λ db. db.identity_providers) (has_slug req.slug))
    guard (not (is_some existing)) (http 409 "Slug already exists")
    on_discovery (prefetch_oidc_discovery answer mono req.type req.config)
    provider ← on_database (add_provider (new_provider req now))
    on_database (audit_as admin "create_provider" (Text.◌++◌ "provider=" provider.slug) now)
    pure provider

  unfoldable pub get_provider : Time → String → ℕ → Exec Database IdentityProvider
  get_provider now token provider_id = do
    admin ← require_admin ext settings now token
    found ← find_provider provider_id
    found_or (raise provider_not_found) found pure

  -- `if req.config is not None: await _prefetch_oidc_discovery(…)`
  abbrev pub prefetch_given : Fetch → Time → ProviderType → Option Dict → Exec Process Unit
  prefetch_given answer mono type none = pure tt
  prefetch_given answer mono type (some config) =
      on_discovery (prefetch_oidc_discovery answer mono type config)

  unfoldable pub update_provider :
      Fetch → Time → Time → String → ℕ → ProviderUpdate → Exec Process IdentityProvider
  update_provider answer mono now token provider_id req = do
    admin ← on_database (require_admin ext settings now token)
    found ← on_database (find_provider provider_id)
    found_or (raise provider_not_found) found λ provider. do
      prefetch_given answer mono provider.type req.config
      on_database (modify (save_provider (apply_provider_update req provider)))
      on_database (audit_as admin "update_provider" (Text.◌++◌ "provider=" (str provider_id)) now)
      pure (apply_provider_update req provider)

  unfoldable pub delete_provider : Time → String → ℕ → Exec Database Unit
  delete_provider now token provider_id = do
    admin ← require_admin ext settings now token
    found ← find_provider provider_id
    found_or (raise provider_not_found) found λ provider. do
      modify (drop_provider provider.id)
      audit_as admin "delete_provider" (Text.◌++◌ "provider=" provider.slug) now

  unfoldable pub list_claim_mappings : Time → String → ℕ → Exec Database (List ClaimRoleMapping)
  list_claim_mappings now token provider_id = do
    admin ← require_admin ext settings now token
    gets (provider_mappings provider_id)

  unfoldable pub create_claim_mapping :
      Time → String → ℕ → ClaimMappingCreate → Exec Database ClaimRoleMapping
  create_claim_mapping now token provider_id req = do
    admin ← require_admin ext settings now token
    provider ← find_provider provider_id
    guard (is_some provider) provider_not_found
    role ← one_where (λ db. db.roles) (λ r. r.id == req.role_id)
    guard (is_some role) role_not_found
    mapping ← add_mapping (new_mapping provider_id req)
    audit_as admin "create_claim_mapping" (Text.◌++◌ "provider=" (str provider_id)) now
    pure mapping

  unfoldable pub delete_claim_mapping : Time → String → ℕ → ℕ → Exec Database Unit
  delete_claim_mapping now token provider_id mapping_id = do
    admin ← require_admin ext settings now token
    found ← one_where (λ db. db.claim_role_mappings) (is_mapping provider_id mapping_id)
    found_or (raise (http 404 "Mapping not found")) found λ mapping. do
      modify (drop_mapping mapping.id)
      audit_as admin "delete_claim_mapping" (Text.◌++◌ "mapping=" (str mapping_id)) now
