-- ===== src/Models/Federation.antt =====
-- models.py: the rows of single sign-on and of groups.
use accelerator_pack_auth_se.Prelude.{String, ℕ, Bool, Option}
use accelerator_pack_auth_se.Values.{Dict}
use accelerator_pack_auth_se.Models.{Time, ProviderType, GroupSource}

pub record IdentityProvider : Type 0 where
  pub id : ℕ
  pub tenant_id : Option ℕ
  pub type : ProviderType
  pub name : String
  pub slug : String
  pub config : Dict
  pub is_active : Bool
  pub priority : ℕ
  pub created_at : Time

pub record ExternalIdentity : Type 0 where
  pub id : ℕ
  pub user_id : ℕ
  pub provider_id : ℕ
  pub external_id : String
  pub email : Option String
  pub raw_claims : Option Dict
  pub last_login_at : Option Time

pub record ClaimRoleMapping : Type 0 where
  pub id : ℕ
  pub provider_id : ℕ
  pub claim_key : String
  pub claim_value_pattern : String
  pub role_id : ℕ
  pub priority : ℕ
  pub is_regex : Bool

pub record Group : Type 0 where
  pub id : ℕ
  pub tenant_id : Option ℕ
  pub name : String
  pub display_name : Option String
  pub description : Option String
  pub external_id : Option String
  pub source : GroupSource
  pub created_at : Time
  pub updated_at : Option Time

pub record GroupMembership : Type 0 where
  pub group_id : ℕ
  pub user_id : ℕ

pub record GroupRole : Type 0 where
  pub group_id : ℕ
  pub role_id : ℕ
  pub tenant_id : Option ℕ

pub record SsoState : Type 0 where
  pub state : String
  pub nonce : String
  pub provider_id : ℕ
  pub redirect_uri : String
  pub created_at : Time
  pub expires_at : Time
