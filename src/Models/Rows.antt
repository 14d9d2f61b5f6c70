-- ===== src/Models/Rows.antt =====
-- models.py: one record for each table of users, roles, tokens, keys, accounts and audit logs.
use accelerator_pack_auth_se.Prelude.{String, ℕ, Bool, Option}
use accelerator_pack_auth_se.Values.{Dict}
use accelerator_pack_auth_se.Models.{Time, Role, PermissionLevel, SigningKeyStatus, AuditResult}

pub record User : Type 0 where
  pub id : ℕ
  pub email : String
  pub name : String
  pub password_hash : String
  pub role : Role
  pub is_active : Bool
  pub created_at : Time
  pub allowed_scopes : Option String

pub record CollectionPermission : Type 0 where
  pub id : ℕ
  pub user_id : ℕ
  pub collection_id : String
  pub permission_level : PermissionLevel
  pub created_at : Time

pub record RefreshToken : Type 0 where
  pub id : ℕ
  pub user_id : ℕ
  pub token_hash : String
  pub expires_at : Time
  pub revoked : Bool
  pub created_at : Time

pub record TokenBlacklist : Type 0 where
  pub id : ℕ
  pub jti : String
  pub expires_at : Time
  pub created_at : Time

pub record FailedLoginAttempt : Type 0 where
  pub id : ℕ
  pub email : String
  pub ip_address : Option String
  pub attempted_at : Time

pub record Tenant : Type 0 where
  pub id : ℕ
  pub name : String
  pub slug : String
  pub is_active : Bool
  pub settings : Option Dict
  pub created_at : Time

pub record DbRole : Type 0 where
  pub id : ℕ
  pub tenant_id : Option ℕ
  pub name : String
  pub description : Option String
  pub is_system : Bool
  pub is_default : Bool
  pub created_at : Time

pub record Permission : Type 0 where
  pub id : ℕ
  pub codename : String
  pub description : Option String
  pub resource_type : Option String

pub record RolePermission : Type 0 where
  pub role_id : ℕ
  pub permission_id : ℕ

pub record UserRole : Type 0 where
  pub id : ℕ
  pub user_id : ℕ
  pub role_id : ℕ
  pub tenant_id : Option ℕ
  pub scope_type : Option String
  pub scope_id : Option String
  pub granted_by : Option ℕ
  pub created_at : Time

pub record DirectGrant : Type 0 where
  pub id : ℕ
  pub user_id : ℕ
  pub permission_id : ℕ
  pub resource_type : Option String
  pub resource_id : Option String
  pub tenant_id : Option ℕ
  pub granted_by : Option ℕ
  pub created_at : Time

pub record ResourceOwnership : Type 0 where
  pub id : ℕ
  pub resource_type : String
  pub resource_id : String
  pub owner_user_id : ℕ
  pub tenant_id : Option ℕ

pub record SigningKey : Type 0 where
  pub id : ℕ
  pub kid : String
  pub algorithm : String
  pub public_pem : String
  pub private_pem : String
  pub status : SigningKeyStatus
  pub created_at : Time
  pub rotated_at : Option Time
  pub revoked_at : Option Time

-- The column `detail` stays NULL everywhere.
pub record AuditLog : Type 0 where
  pub id : ℕ
  pub timestamp : Time
  pub event_type : String
  pub actor_user_id : Option ℕ
  pub actor_email : Option String
  pub actor_principal_type : Option String
  pub actor_principal_id : Option String
  pub target_type : Option String
  pub target_id : Option String
  pub tenant_id : Option ℕ
  pub details : Option Dict
  pub ip_address : Option String
  pub user_agent : Option String
  pub result : AuditResult
  pub user_id : Option ℕ
  pub action : Option String
  pub target : Option String
  pub created_at : Option Time

pub record ServiceAccount : Type 0 where
  pub id : ℕ
  pub client_id : String
  pub client_secret_hash : String
  pub name : String
  pub description : Option String
  pub scopes : String
  pub owner_user_id : ℕ
  pub is_active : Bool
  pub expires_at : Option Time
  pub created_at : Time
  pub revoked_at : Option Time
  pub last_used_at : Option Time
  pub last_used_ip : Option String
