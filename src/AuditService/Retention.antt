-- ===== src/AuditService/Retention.antt =====
-- What the purge of the audit logs takes away and leaves.
use accelerator_pack_auth_se.Prelude.{
  ℕ, ◌+◌, String, List, ◌∷◌, ◌≡◌, Result, ok, err, length, select, leb,
}
use accelerator_pack_auth_se.Models.{Time}
use accelerator_pack_auth_se.Models.Rows.{AuditLog}
use accelerator_pack_auth_se.Models.Database.{Database}
use accelerator_pack_auth_se.External.{External}
use accelerator_pack_auth_se.Config.{Settings}
use accelerator_pack_auth_se.AuditService.{Logs, cutoff}

module _ (ext : External) (settings : Settings) (now : Time) (token : String) where
  -- The logs that a purge leaves: those of the retention period, in their order, below one new log
  -- of the purge itself, by the caller.
  pub record IsPurged (before after : Logs) (deleted : ℕ) : Type 0 where
    pub kept : List AuditLog
    pub entry : AuditLog
    pub rows : after.rows ≡ entry ∷ kept
    pub retained : kept ≡ select (λ log. leb (cutoff settings now) log.timestamp) before.rows
    pub counted : deleted + length kept ≡ length before.rows
    pub audited : entry.event_type ≡ "purge_audit"
    pub stamped : entry.timestamp ≡ now

  abbrev pub Outcome : Database → Result ℕ × Database → Type 0
  Outcome db (ok deleted, db') = IsPurged db.audit_logs db'.audit_logs deleted
  Outcome db (err e, db') = db' ≡ db
