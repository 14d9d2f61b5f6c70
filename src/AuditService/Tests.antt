-- ===== src/AuditService/Tests.antt =====
-- Witnesses for the theorems on the audit log.
use accelerator_pack_auth_se.Prelude.{ℕ, [], ◌∷◌, ◌≡◌, refl, ok, none, arith, select, length}
use accelerator_pack_auth_se.AuditService.{Logs, no_filter, matches, query_audit_logs}
use accelerator_pack_auth_se.AuditService.Paging.{
  instant, newest_first, pages, query_audit_logs-pages,
}
use accelerator_pack_auth_se.Table.{order_desc}
use accelerator_pack_auth_se.Table.Laws.{length-select-order_desc}
use accelerator_pack_auth_se.Table.Ordering.{order_desc-IsDescending}
use accelerator_pack_auth_se.Table.Orders.{IsOrderBy, IsDistinct, In-ordered}
use accelerator_pack_auth_se.Models.Rows.{AuditLog}
use accelerator_pack_auth_se.Models.{success}

abbrev log : ℕ → AuditLog
log at = record {
  id = at;
  user_id = none;
  action = none;
  target = none;
  created_at = none;
  timestamp = at;
  event_type = "login";
  actor_user_id = none;
  actor_email = none;
  actor_principal_type = none;
  actor_principal_id = none;
  target_type = none;
  target_id = none;
  tenant_id = none;
  details = none;
  ip_address = none;
  user_agent = none;
  result = success;
}

abbrev logs : Logs
logs = record { rows = log 3 ∷ log 2 ∷ log 1 ∷ []; next_id = 4 }

by_instant : IsOrderBy instant (order_desc instant)
by_instant = record {
  keeps = λ rows x m. In-ordered instant rows x m;
  counts = λ rows p. length-select-order_desc p instant rows;
  descends = λ rows. order_desc-IsDescending instant rows;
}

apart : IsDistinct instant (select (matches no_filter) logs.rows)
unfolding select matches
apart k = ground arith

query_audit_logs-pages_example :
    (pages (λ k. order_desc instant) no_filter 2 2 logs ≡ ok (newest_first no_filter logs))
    × (length (newest_first no_filter logs) ≡ 3)
unfolding query_audit_logs select order_desc
query_audit_logs-pages_example =
    query_audit_logs-pages (λ k. order_desc instant) no_filter 2 logs 2 (log 3 ∷ log 2 ∷ []) 3
      (λ k. by_instant) apart refl (omega arith)
