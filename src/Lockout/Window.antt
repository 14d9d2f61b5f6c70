-- ===== src/Lockout/Window.antt =====
-- How failed logins add up: the attempts of one email that lie after an instant.
use accelerator_pack_auth_se.Prelude.{
  ℕ, ◌+◌, ◌-◌, ◌≤◌, String, List, [], ◌∷◌, ◌≡◌, Bool, ◌&&◌, Option, ok, arith, ltb, str_eq, eq_iff,
  length, select, if◌then◌else◌,
}
use accelerator_pack_auth_se.Table.{delete_where}
use accelerator_pack_auth_se.Table.Laws.{length-select_mono}
use accelerator_pack_auth_se.Models.{Time, minutes}
use accelerator_pack_auth_se.Models.Rows.{FailedLoginAttempt}
use accelerator_pack_auth_se.Lockout.{
  Attempts, is_recent, record_failed_login, check_account_lockout, clear_failed_attempts,
}

abbrev pub is_of : String → FailedLoginAttempt → Bool
is_of email a = str_eq a.email email

abbrev pub failures : String → Attempts → ℕ
failures email t = length (select (is_of email) t.rows)

abbrev pub failures_since : Time → String → Attempts → ℕ
failures_since since email t = length (select (is_recent email since) t.rows)

pub failures_since-le :
    (since : Time) (email : String) (t : Attempts) → failures_since since email t ≤ failures email t
failures_since-le since email t =
    length-select_mono (is_recent email since) (is_of email) t.rows λ a h. ground arith

-- A failure counts for its email from every instant before it, and for no other email.
pub record_failed_login-since :
    (email other : String) (ip : Option String) (at since : Time) (t : Attempts)
    → failures_since since other (record_failed_login email ip at t).1
      ≡ failures_since since other t + (if str_eq email other && ltb since at then 1 else 0)
unfolding record_failed_login select
record_failed_login-since email other ip at since t = ground arith

pub record_failed_login-all :
    (email other : String) (ip : Option String) (at : Time) (t : Attempts)
    → failures other (record_failed_login email ip at t).1
      ≡ failures other t + (if str_eq email other then 1 else 0)
unfolding record_failed_login select
record_failed_login-all email other ip at t = ground arith

select-cleared :
    (email other : String) (since : Time) (rows : List FailedLoginAttempt)
    → length (select (is_recent other since) (delete_where (is_of email) rows))
      ≡ (if str_eq email other then 0 else length (select (is_recent other since) rows))
unfolding delete_where select
select-cleared email other since [] = ground arith
select-cleared email other since (x ∷ xs) = ground (
  arith,
  select-cleared email other since xs,
  eq_iff x.email email,
  eq_iff x.email other,
  eq_iff email other,
)

-- Clearing an email unlocks it, and changes nothing for the others: the check of any email comes to
-- what it was, or passes where the email is the cleared one.
pub clear_failed_attempts_lem :
    (threshold duration : ℕ) (email other : String) (now : Time) (t : Attempts)
    → 1 ≤ threshold
    → (check_account_lockout threshold duration other now (clear_failed_attempts email t).1).0 ≡ (
        if str_eq email other
        then ok tt
        else (check_account_lockout threshold duration other now t).0)
unfolding check_account_lockout clear_failed_attempts
clear_failed_attempts_lem threshold duration email other now t h =
    ground (arith, select-cleared email other (now - minutes duration) t.rows)
