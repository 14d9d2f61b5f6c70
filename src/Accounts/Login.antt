-- ===== src/Accounts/Login.antt =====
-- What the login handler checks, and how it locks an email out.
use accelerator_pack_auth_se.Prelude.{
  ℕ, suc, ◌+◌, ◌-◌, ◌≤◌, String, List, [], ◌∷◌, ◌≡◌, refl, ap, sym, ◌∙◌, subst, Bool, true, false,
  ◌||◌, Option, Result, ok, err, arith, ltb, leb, eq_refl, length, Bool-cases, inl, inr,
  if◌then◌else◌,
}
use accelerator_pack_auth_se.Models.{Time, minutes}
use accelerator_pack_auth_se.Models.Rows.{User}
use accelerator_pack_auth_se.Models.Database.{Database}
use accelerator_pack_auth_se.External.{External}
use accelerator_pack_auth_se.Config.{Settings}
use accelerator_pack_auth_se.Lockout.{record_failed_login, check_account_lockout, locked, Attempts}
use accelerator_pack_auth_se.Lockout.Window.{
  failures, failures_since, failures_since-le, record_failed_login-since, record_failed_login-all,
}
use accelerator_pack_auth_se.Accounts.{
  FreshLogin, LoginRequest, find_email, password_matches, invalid_login, require_local_auth,
  check_password, refuse_login, login,
}

module _ (ext : External) (settings : Settings) where
  -- The email is locked at the instant.
  abbrev pub is_locked : Time → String → Attempts → Bool
  is_locked now email t =
      leb settings.account_lockout_threshold
        (failures_since (now - minutes settings.account_lockout_duration_minutes) email t)

  abbrev pub with_failure : String → Option String → Time → Database → Database
  with_failure email ip now db = record db {
    failed_login_attempts = (record_failed_login email ip now db.failed_login_attempts).1;
  }

  -- A login with a wrong password, or for an unknown email, is answered the same: the status 401 and
  -- one more failure of that email in the database, or, where the email is locked, the status 429 and no
  -- change at all.
  pub login-wrong :
      (fresh : FreshLogin) (ip : Option String) (now : Time) (req : LoginRequest) (db : Database)
      (found : Option User)
      → settings.local_auth_enabled ≡ true
      → (find_email req.email db).0 ≡ ok found
      → password_matches ext.bcrypt req.password found ≡ ok false
      → login ext settings fresh ip now req db ≡ (
          if is_locked now req.email db.failed_login_attempts
          then (err locked, db)
          else (err invalid_login, with_failure req.email ip now db))
  unfolding login require_local_auth check_account_lockout check_password refuse_login find_email
      record_failed_login
  login-wrong fresh ip now req db found enabled row wrong =
      elim (Bool-cases (is_locked now req.email db.failed_login_attempts)) [
        | inl e ↦ rw (enabled, e) refl
        | inr e ↦ rw (enabled, e, row, wrong) refl
      ]

  -- An email that is locked is refused whatever the password is.
  login-locked :
      (fresh : FreshLogin) (ip : Option String) (now : Time) (req : LoginRequest) (db : Database)
      → settings.local_auth_enabled ≡ true
      → is_locked now req.email db.failed_login_attempts ≡ true
      → login ext settings fresh ip now req db ≡ (err locked, db)
  unfolding login require_local_auth check_account_lockout
  login-locked fresh ip now req db enabled e = rw (enabled, e) refl

  -- A login that is tried with an email.
  pub record Try : Type 0 where
    pub fresh : FreshLogin
    pub ip : Option String
    pub at : Time
    pub password : String
    pub scope : Option String

  abbrev pub request_of : String → Try → LoginRequest
  request_of email t = record { email = email; password = t.password; scope = t.scope }

  unfoldable pub try_all : String → List Try → Database → Database
  try_all email [] db = db
  try_all email (t ∷ ts) db =
      try_all email ts (login ext settings t.fresh t.ip t.at (request_of email t) db).1

  -- All passwords are wrong for the user, and all tries lie after the instant.
  abbrev pub AllWrong : Time → Option User → List Try → Type 0
  AllWrong since found [] = Unit
  AllWrong since found (t ∷ ts) =
      (password_matches ext.bcrypt t.password found ≡ ok false)
      × (ltb since t.at ≡ true)
      × AllWrong since found ts

  -- At least `n` failures were recorded, or as many as lock; all of them lie after the instant.
  record IsCounted (since : Time) (email : String) (found : Option User) (n : ℕ) (db : Database)
      : Type 0 where
    recent :
        failures_since since email db.failed_login_attempts
        ≡ failures email db.failed_login_attempts
    enough :
        (leb settings.account_lockout_threshold (failures email db.failed_login_attempts)
          || leb n (failures email db.failed_login_attempts))
        ≡ true
    row : (find_email email db).0 ≡ ok found

  count_next :
      (since : Time) (email : String) (found : Option User) (n : ℕ) (t : Try) (db : Database)
      → ltb since t.at ≡ true
      → IsCounted since email found n db
      → IsCounted since email found (suc n) (
          if is_locked t.at email db.failed_login_attempts
          then db
          else with_failure email t.ip t.at db)
  unfolding find_email
  count_next since email found n t db later c =
      elim (Bool-cases (is_locked t.at email db.failed_login_attempts)) [
        | inl e ↦ rw e (record {
          recent = c.recent;
          enough = ground (
            arith,
            failures_since-le (t.at - minutes settings.account_lockout_duration_minutes) email
                db.failed_login_attempts,
          );
          row = c.row;
        })
        | inr e ↦ rw e (record {
          recent = ground (
            arith,
            c.recent,
            eq_refl email,
            record_failed_login-since email email t.ip t.at since db.failed_login_attempts,
            record_failed_login-all email email t.ip t.at db.failed_login_attempts,
          );
          enough = ground (
            arith,
            c.enough,
            eq_refl email,
            record_failed_login-all email email t.ip t.at db.failed_login_attempts,
          );
          row = c.row;
        })
      ]

  plus_suc : (n m : ℕ) → suc n + m ≡ n + suc m
  plus_suc n m = omega arith

  if-state :
      {A : Type 0} (b : Bool) (r s : Result A) (d e : Database)
      → (if◌then◌else◌ {A = Result A × Database} b (r, d) (s, e)).1 ≡ (if b then d else e)
  if-state true r s d e = refl
  if-state false r s d e = refl

  count_all :
      (since : Time) (email : String) (found : Option User) (n : ℕ) (ts : List Try) (db : Database)
      → settings.local_auth_enabled ≡ true
      → AllWrong since found ts
      → IsCounted since email found n db
      → IsCounted since email found (n + length ts) (try_all email ts db)
  unfolding try_all
  count_all since email found n [] db enabled wrong c =
      subst (λ k. IsCounted since email found k db) (omega arith) c
  count_all since email found n (t ∷ ts) db enabled (wrong, later, rest) c =
      let answer =
        login-wrong t.fresh t.ip t.at (request_of email t) db found enabled c.row wrong in
      let next : IsCounted since email found (suc n)
          (login ext settings t.fresh t.ip t.at (request_of email t) db).1 =
        subst (IsCounted since email found (suc n))
          (sym (
            ap (λ r. r.1) answer
            ∙ if-state (is_locked t.at email db.failed_login_attempts) _ _ db _))
          (count_next since email found n t db later c) in
      subst
        (λ k.
          IsCounted since email found k
            (try_all email ts (login ext settings t.fresh t.ip t.at (request_of email t) db).1))
        (plus_suc n (length ts)) (count_all since email found (suc n) ts _ enabled rest next)

  -- Lockout: starting from an email without failures, after as many logins with wrong passwords as the
  -- threshold says, all within the lockout duration before now, the next login is refused with the
  -- status 429, whatever its password, and changes nothing.
  pub login-lockout :
      (fresh : FreshLogin) (ip : Option String) (now : Time) (req : LoginRequest)
      (found : Option User) (tries : List Try) (db : Database)
      → settings.local_auth_enabled ≡ true
      → (find_email req.email db).0 ≡ ok found
      → failures req.email db.failed_login_attempts ≡ 0
      → AllWrong (now - minutes settings.account_lockout_duration_minutes) found tries
      → settings.account_lockout_threshold ≤ length tries
      → login ext settings fresh ip now req (try_all req.email tries db)
        ≡ (err locked, try_all req.email tries db)
  login-lockout fresh ip now req found tries db enabled row clean wrong many =
      let since = now - minutes settings.account_lockout_duration_minutes in
      let start : IsCounted since req.email found 0 db = record {
        recent = omega (arith, clean, failures_since-le since req.email db.failed_login_attempts);
        enough = ground arith;
        row = row;
      } in
      let c = count_all since req.email found 0 tries db enabled wrong start in
      login-locked fresh ip now req (try_all req.email tries db) enabled
        (ground (arith, c.enough, c.recent))
