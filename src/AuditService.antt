-- ===== src/AuditService.antt =====
-- audit_service.py: structured events, queries with filters and paging, and the purge of old logs,
-- over the table of audit logs. The handlers of main.py that call it stand in a child.
pub mod Handlers
pub mod Paging
pub mod Retention
mod Tests
use accelerator_pack_auth_se.Prelude.{
  ℕ, ◌+◌, ◌-◌, String, List, [], ◌∷◌, ◌++◌, Bool, true, false, not, ◌&&◌, Option, none, some, ok,
  err, Result, data_error, ◌||◌, ◌==◌, leb, ltb, str_eq, select, map, take, drop, length,
  if◌then◌else◌,
}
use accelerator_pack_auth_se.Exec.{Exec, pure, gets, modify, ◌>>=◌, ◌>>◌}
use accelerator_pack_auth_se.Table.{Table, insert_row, delete_where}
use accelerator_pack_auth_se.Values.{Dict}
use accelerator_pack_auth_se.Models.{Time, days, AuditResult, result_value}
use accelerator_pack_auth_se.Models.Rows.{AuditLog}
use accelerator_pack_auth_se.Config.{Settings}
use accelerator_pack_auth_se.Permissions.{when_given, column_eq}

abbrev pub Logs : Type 0
Logs = Table AuditLog

-- The arguments of `log_event`.
pub record AuditEvent : Type 0 where
  pub event_type : String
  pub actor_user_id : Option ℕ
  pub actor_email : Option String
  pub target_type : Option String
  pub target_id : Option String
  pub tenant_id : Option ℕ
  pub details : Option Dict
  pub ip_address : Option String
  pub user_agent : Option String
  pub result : AuditResult

abbrev pub event_row : AuditEvent → Time → ℕ → AuditLog
event_row e now id = record {
  id = id;
  timestamp = now;
  event_type = e.event_type;
  actor_user_id = e.actor_user_id;
  actor_email = e.actor_email;
  actor_principal_type = none;
  actor_principal_id = none;
  target_type = e.target_type;
  target_id = e.target_id;
  tenant_id = e.tenant_id;
  details = e.details;
  ip_address = e.ip_address;
  user_agent = e.user_agent;
  result = e.result;
  user_id = e.actor_user_id;
  action = some e.event_type;
  target = none;
  created_at = some now;
}

unfoldable pub log_event : Settings → AuditEvent → Time → Exec Logs (Option AuditLog)
log_event settings e now t =
    if settings.audit_enabled
    then (ok (some (event_row e now t.next_id)), insert_row (event_row e now) t)
    else (ok none, t)

-- The filters of a query; one that is left out, or an empty text, adds no condition.
pub record AuditFilter : Type 0 where
  pub event_type : Option String
  pub actor_user_id : Option ℕ
  pub target_type : Option String
  pub target_id : Option String
  pub result_filter : Option String
  pub from_date : Option Time
  pub to_date : Option Time

abbrev pub no_filter : AuditFilter
no_filter = record {
  event_type = none;
  actor_user_id = none;
  target_type = none;
  target_id = none;
  result_filter = none;
  from_date = none;
  to_date = none;
}

abbrev pub when_some : {A : Type 0} → Option A → (A → Bool) → Bool
when_some none test = true
when_some (some a) test = test a

-- `column == number`: a NULL column passes no comparison.
abbrev pub column_is : Option ℕ → ℕ → Bool
column_is none k = false
column_is (some j) k = j == k

unfoldable pub matches : AuditFilter → AuditLog → Bool
matches f log =
    when_given f.event_type (str_eq log.event_type)
    && when_some f.actor_user_id (column_is log.actor_user_id)
    && when_given f.target_type (column_eq log.target_type)
    && when_given f.target_id (column_eq log.target_id)
    && when_given f.result_filter (str_eq (result_value log.result))
    && when_some f.from_date (λ d. leb d log.timestamp)
    && when_some f.to_date (λ d. leb log.timestamp d)

-- The column `result` is an enumeration: a text that is none of its names is refused when it is bound.
unfoldable pub is_bindable : Option String → Bool
is_bindable result_filter = when_given result_filter λ s. str_eq "success" s || str_eq "failure" s

-- The page, and the number of logs that match on all pages. `sort` is the order in which the database
-- gives the rows of this query, the newest first: SQL leaves the order of equal instants open.
unfoldable pub query_audit_logs :
    (List AuditLog → List AuditLog) → AuditFilter → ℕ → ℕ → Logs → Result (List AuditLog × ℕ)
unfolding matches is_bindable
query_audit_logs sort f offset limit t =
    let found = select (matches f) t.rows in
    if is_bindable f.result_filter
    then ok (take limit (drop offset (sort found)), length found)
    else err data_error

-- `audit_log_to_dict`, with the instant as it is.
pub record AuditView : Type 0 where
  pub id : ℕ
  pub timestamp : Time
  pub event_type : String
  pub actor_user_id : Option ℕ
  pub actor_email : Option String
  pub actor_principal_type : Option String
  pub actor_principal_id : Option String
  pub target_type : Option String
  pub target_id : Option String
  pub tenant_id : Option ℕ
  pub details : Option Dict
  pub ip_address : Option String
  pub user_agent : Option String
  pub result : String

unfoldable pub audit_log_to_dict : AuditLog → AuditView
audit_log_to_dict log = record {
  id = log.id;
  timestamp = log.timestamp;
  event_type = log.event_type;
  actor_user_id = log.actor_user_id;
  actor_email = log.actor_email;
  actor_principal_type = log.actor_principal_type;
  actor_principal_id = log.actor_principal_id;
  target_type = log.target_type;
  target_id = log.target_id;
  tenant_id = log.tenant_id;
  details = log.details;
  ip_address = log.ip_address;
  user_agent = log.user_agent;
  result = result_value log.result;
}

abbrev pub cutoff : Settings → Time → Time
cutoff settings now = now - days settings.audit_retention_days

-- `rowcount` is the number of rows that the deletion took.
unfoldable pub purge_old_logs : Settings → Time → Exec Logs ℕ
purge_old_logs settings now t =
    let is_old = λ (log : AuditLog). ltb log.timestamp (cutoff settings now) in
    (ok (length (select is_old t.rows)), record t { rows = delete_where is_old t.rows })
