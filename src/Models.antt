-- ===== src/Models.antt =====
-- models.py: the enumerations and the rows of the tables. An instant is a number of microseconds,
-- in UTC; a JSON column that the service decodes itself is the text that it stores.
pub mod Rows
pub mod Federation
pub mod Database
use accelerator_pack_auth_se.Prelude.{String, ℕ, ◌*◌, Bool, true, false}

abbrev pub Time : Type 0
Time = ℕ

abbrev pub seconds : ℕ → Time
seconds n = n * 1000000

abbrev pub minutes : ℕ → Time
minutes n = n * 60000000

abbrev pub hours : ℕ → Time
hours n = n * 3600000000

abbrev pub days : ℕ → Time
days n = n * 86400000000

pub data Role : Type 0 where
  admin user reader pending : Role

abbrev pub role_value : Role → String
role_value admin = "admin"
role_value user = "user"
role_value reader = "reader"
role_value pending = "pending"

abbrev pub is_admin : Role → Bool
is_admin admin = true
is_admin _ = false

pub data PrincipalType : Type 0 where
  user client : PrincipalType

abbrev pub principal_value : PrincipalType → String
principal_value user = "user"
principal_value client = "client"

pub data SigningKeyStatus : Type 0 where
  active rotating_out revoked : SigningKeyStatus

abbrev pub is_active_status : SigningKeyStatus → Bool
is_active_status active = true
is_active_status _ = false

abbrev pub is_rotating_out : SigningKeyStatus → Bool
is_rotating_out rotating_out = true
is_rotating_out _ = false

abbrev pub is_revoked : SigningKeyStatus → Bool
is_revoked revoked = true
is_revoked _ = false

pub data AuditResult : Type 0 where
  success failure : AuditResult

abbrev pub result_value : AuditResult → String
result_value success = "success"
result_value failure = "failure"

pub data PermissionLevel : Type 0 where
  read write manage : PermissionLevel

abbrev pub level_value : PermissionLevel → String
level_value read = "read"
level_value write = "write"
level_value manage = "manage"

pub data ProviderType : Type 0 where
  oidc saml : ProviderType

pub data GroupSource : Type 0 where
  local scim jit : GroupSource

abbrev pub source_value : GroupSource → String
source_value local = "local"
source_value scim = "scim"
source_value jit = "jit"
