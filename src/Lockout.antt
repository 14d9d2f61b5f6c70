-- ===== src/Lockout.antt =====
-- The failed logins of auth.py, over their table.
pub mod Window
mod Tests
use accelerator_pack_auth_se.Prelude.{
  ℕ, ◌-◌, String, Bool, ◌&&◌, Option, ok, err, Error, http, ltb, leb, str_eq, length, select,
  if◌then◌else◌,
}
use accelerator_pack_auth_se.Exec.{Exec, modify}
use accelerator_pack_auth_se.Table.{Table, insert_row, delete_where}
use accelerator_pack_auth_se.Models.{Time, minutes}
use accelerator_pack_auth_se.Models.Rows.{FailedLoginAttempt}

abbrev pub Attempts : Type 0
Attempts = Table FailedLoginAttempt

unfoldable pub record_failed_login : String → Option String → Time → Exec Attempts Unit
record_failed_login email ip_address now = modify (
    insert_row λ id. record { id = id; email = email; ip_address = ip_address; attempted_at = now })

-- `email == … and attempted_at > window`
abbrev pub is_recent : String → Time → FailedLoginAttempt → Bool
is_recent email window a = str_eq a.email email && ltb window a.attempted_at

abbrev pub locked : Error
locked = http 429 "Account temporarily locked due to too many failed login attempts"

unfoldable pub check_account_lockout : (threshold duration : ℕ) → String → Time → Exec Attempts Unit
check_account_lockout threshold duration email now t =
    let window = now - minutes duration in
    if leb threshold (length (select (is_recent email window) t.rows))
    then (err locked, t)
    else (ok tt, t)

unfoldable pub clear_failed_attempts : String → Exec Attempts Unit
clear_failed_attempts email =
    modify λ t. record t { rows = delete_where (λ a. str_eq a.email email) t.rows }
