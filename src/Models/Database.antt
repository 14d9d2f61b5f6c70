-- ===== src/Models/Database.antt =====
-- The state of the service: one table for each kind of row.
use accelerator_pack_auth_se.Table.{Table, empty_table}
use accelerator_pack_auth_se.Models.Rows.{
  User, RefreshToken, TokenBlacklist, FailedLoginAttempt, DbRole, Permission, RolePermission,
  UserRole, DirectGrant, ResourceOwnership, SigningKey, AuditLog, ServiceAccount,
  CollectionPermission, Tenant,
}
use accelerator_pack_auth_se.Models.Federation.{
  IdentityProvider, ExternalIdentity, ClaimRoleMapping, Group, GroupMembership, GroupRole, SsoState,
}

pub record Database : Type 0 where
  pub users : Table User
  pub refresh_tokens : Table RefreshToken
  pub token_blacklist : Table TokenBlacklist
  pub failed_login_attempts : Table FailedLoginAttempt
  pub roles : Table DbRole
  pub permissions : Table Permission
  pub role_permissions : Table RolePermission
  pub user_roles : Table UserRole
  pub direct_grants : Table DirectGrant
  pub resource_ownership : Table ResourceOwnership
  pub signing_keys : Table SigningKey
  pub audit_logs : Table AuditLog
  pub service_accounts : Table ServiceAccount
  pub collection_permissions : Table CollectionPermission
  pub identity_providers : Table IdentityProvider
  pub external_identities : Table ExternalIdentity
  pub claim_role_mappings : Table ClaimRoleMapping
  pub groups : Table Group
  pub group_memberships : Table GroupMembership
  pub group_roles : Table GroupRole
  pub sso_state : Table SsoState
  pub tenants : Table Tenant

abbrev pub empty_database : Database
empty_database = record {
  users = empty_table;
  refresh_tokens = empty_table;
  token_blacklist = empty_table;
  failed_login_attempts = empty_table;
  roles = empty_table;
  permissions = empty_table;
  role_permissions = empty_table;
  user_roles = empty_table;
  direct_grants = empty_table;
  resource_ownership = empty_table;
  signing_keys = empty_table;
  audit_logs = empty_table;
  service_accounts = empty_table;
  collection_permissions = empty_table;
  identity_providers = empty_table;
  external_identities = empty_table;
  claim_role_mappings = empty_table;
  groups = empty_table;
  group_memberships = empty_table;
  group_roles = empty_table;
  sso_state = empty_table;
  tenants = empty_table;
}
