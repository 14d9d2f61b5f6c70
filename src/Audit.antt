-- ===== src/Audit.antt =====
-- `log_audit` of auth.py, over the table of audit logs.
use accelerator_pack_auth_se.Prelude.{ℕ, String, Option, none, some}
use accelerator_pack_auth_se.Exec.{Exec, modify}
use accelerator_pack_auth_se.Table.{Table, insert_row}
use accelerator_pack_auth_se.Models.{Time, PrincipalType, AuditResult, principal_value, success}
use accelerator_pack_auth_se.Models.Rows.{AuditLog}
use accelerator_pack_auth_se.Decimal.{str}

-- The argument `principal_type`: left out, a member of the enumeration, or a text.
pub data PrincipalArg : Type 0 where
  absent : PrincipalArg
  typed : PrincipalType → PrincipalArg
  text : String → PrincipalArg

abbrev pub resolved_principal_type : Option ℕ → PrincipalArg → Option String
resolved_principal_type none absent = none
resolved_principal_type (some id) absent = some (principal_value PrincipalType.user)
resolved_principal_type user_id (typed p) = some (principal_value p)
resolved_principal_type user_id (text s) = some s

abbrev pub resolved_principal_id : Option ℕ → Option String → Option String
resolved_principal_id none none = none
resolved_principal_id (some id) none = some (str id)
resolved_principal_id user_id (some principal_id) = some principal_id

abbrev pub resolved_result : Option AuditResult → AuditResult
resolved_result none = success
resolved_result (some r) = r

unfoldable pub log_audit :
    Option ℕ
    → String
    → String
    → PrincipalArg
    → Option String
    → Option AuditResult
    → Time
    → Exec (Table AuditLog) Unit
log_audit user_id action target principal_type principal_id result now = modify (
    insert_row λ id. record {
      id = id;
      timestamp = now;
      event_type = action;
      actor_user_id = user_id;
      actor_email = none;
      actor_principal_type = resolved_principal_type user_id principal_type;
      actor_principal_id = resolved_principal_id user_id principal_id;
      target_type = none;
      target_id = none;
      tenant_id = none;
      details = none;
      ip_address = none;
      user_agent = none;
      result = resolved_result result;
      user_id = user_id;
      action = some action;
      target = some target;
      created_at = some now;
    })
