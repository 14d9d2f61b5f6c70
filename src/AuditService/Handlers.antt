-- ===== src/AuditService/Handlers.antt =====
-- The handlers of main.py that query, export and purge the audit logs.
use accelerator_pack_auth_se.Prelude.{
  ℕ, String, List, Option, none, some, Result, ok, err, value_error, str_eq, map, if◌then◌else◌,
}
use accelerator_pack_auth_se.Exec.{Exec, pure, lift, gets, ◌>>=◌, ◌>>◌}
use accelerator_pack_auth_se.Models.{Time}
use accelerator_pack_auth_se.Models.Rows.{AuditLog}
use accelerator_pack_auth_se.Models.Database.{Database}
use accelerator_pack_auth_se.External.{External}
use accelerator_pack_auth_se.Config.{Settings}
use accelerator_pack_auth_se.Decimal.{str, int}
use accelerator_pack_auth_se.ScopeString.{text_or_empty}
use accelerator_pack_auth_se.Tokens.{on_audit, require_admin, require_pack_permission}
use accelerator_pack_auth_se.Admin.{audit_as}
use accelerator_pack_auth_se.AuditService.{
  AuditFilter, AuditView, no_filter, query_audit_logs, audit_log_to_dict, purge_old_logs,
}
use Prim.Native.String as Text

-- The parameters of the query string, each the text that was sent.
pub record AuditParams : Type 0 where
  pub event_type : Option String
  pub actor_user_id : Option String
  pub target_type : Option String
  pub target_id : Option String
  pub result : Option String
  pub offset : Option String
  pub limit : Option String

pub record AuditPage : Type 0 where
  pub items : List AuditView
  pub total : ℕ
  pub offset : ℕ
  pub limit : ℕ

-- `int(text)`; a text that it does not read is a ValueError that no handler catches.
unfoldable pub read_int : String → Result ℕ
read_int text = elim (int text) [ none ↦ err (value_error "int") | some n ↦ ok n ]

-- `int(params.get(key, default))`
unfoldable pub int_param : ℕ → Option String → Result ℕ
unfolding read_int
int_param default none = ok default
int_param default (some text) = read_int text

-- `int(params[key]) if params.get(key) else None`
unfoldable pub optional_int : Option String → Result (Option ℕ)
unfolding read_int
optional_int param =
    let text = text_or_empty param in if str_eq text "" then ok none else read_some text
  where
    read_some : String → Result (Option ℕ)
    read_some text = elim (int text) [ none ↦ err (value_error "int") | some n ↦ ok (some n) ]

abbrev pub filter_of : AuditParams → Option ℕ → AuditFilter
filter_of params actor = record no_filter {
  event_type = params.event_type;
  actor_user_id = actor;
  target_type = params.target_type;
  target_id = params.target_id;
  result_filter = params.result;
}

abbrev pub page_of : ℕ → ℕ → List AuditLog × ℕ → AuditPage
page_of offset limit (logs, total) = record {
  items = map audit_log_to_dict logs;
  total = total;
  offset = offset;
  limit = limit;
}

module _ (ext : External) (settings : Settings) where
  -- `sort` is the database's order of the logs, for this query.
  unfoldable pub query_audit :
      (List AuditLog → List AuditLog) → Time → String → AuditParams → Exec Database AuditPage
  query_audit sort now token params = do
    user ← require_pack_permission ext settings "admin.audit.view" now token
    actor ← lift (optional_int params.actor_user_id)
    offset ← lift (int_param 0 params.offset)
    limit ← lift (int_param 50 params.limit)
    logs ← gets (λ db. db.audit_logs)
    page ← lift (query_audit_logs sort (filter_of params actor) offset limit logs)
    pure (page_of offset limit page)

  abbrev pub export_limit : ℕ
  export_limit = 10000

  unfoldable pub export_audit :
      (List AuditLog → List AuditLog) → Time → String → Exec Database (List AuditView)
  export_audit sort now token = do
    user ← require_pack_permission ext settings "admin.audit.view" now token
    logs ← gets (λ db. db.audit_logs)
    page ← lift (query_audit_logs sort no_filter 0 export_limit logs)
    pure (map audit_log_to_dict page.0)

  unfoldable pub purge_audit : Time → String → Exec Database ℕ
  purge_audit now token = do
    admin ← require_admin ext settings now token
    deleted ← on_audit (purge_old_logs settings now)
    audit_as admin "purge_audit" (Text.◌++◌ "deleted=" (str deleted)) now
    pure deleted
