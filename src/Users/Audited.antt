-- ===== src/Users/Audited.antt =====
-- Which changes of a user are logged.
use accelerator_pack_auth_se.Prelude.{
  ℕ, ◌+◌, String, ◌++◌, ◌≡◌, refl, Bool, true, false, ◌||◌, Option, none, some, Result, ok, err,
  arith, is_some, is_empty, length, if◌then◌else◌, Bool-cases, inl, inr,
}
use accelerator_pack_auth_se.Exec.Cases.{read-cases, found-cases}
use accelerator_pack_auth_se.Models.{Time, Role}
use accelerator_pack_auth_se.Models.Rows.{User}
use accelerator_pack_auth_se.Models.Database.{Database}
use accelerator_pack_auth_se.External.{External}
use accelerator_pack_auth_se.Config.{Settings}
use accelerator_pack_auth_se.Audit.{log_audit}
use accelerator_pack_auth_se.Tokens.{require_admin, find_user}
use accelerator_pack_auth_se.Tokens.Guards.{require_admin-state}
use accelerator_pack_auth_se.Users.{
  UpdateUserRequest, UserResponse, changes, role_change, active_change, audit_changes, save_user,
  update_user,
}

no_changes :
    (user : User) (req : UpdateUserRequest)
    → is_empty (changes user req)
      ≡ (if is_some req.role || is_some req.is_active then false else true)
unfolding changes
no_changes user req = by_fields user req.role req.is_active
  where
    by_fields :
        (u : User) (role : Option Role) (active : Option Bool)
        → is_empty (role_change u role ++ active_change u active)
          ≡ (if is_some role || is_some active then false else true)
    by_fields u none none = refl
    by_fields u none (some b) = refl
    by_fields u (some r) active = refl

module _ (ext : External) (settings : Settings) (now : Time) (token : String) (user_id : ℕ)
    (req : UpdateUserRequest) where
  -- The number of logs that a call adds.
  abbrev pub Logged : Database → Result UserResponse × Database → Type 0
  Logged db (ok response, db') =
      length db'.audit_logs.rows
      ≡ length db.audit_logs.rows + (if is_some req.role || is_some req.is_active then 1 else 0)
  Logged db (err e, db') = db' ≡ db

  -- A change of a user is logged once if it sets the role or the active flag; a change of the name
  -- alone is not logged. A call that fails changes nothing.
  pub update_user-Logged :
      (db : Database) → Logged db (update_user ext settings now token user_id req db)
  unfolding update_user find_user audit_changes log_audit save_user
  update_user-Logged db =
      read-cases (Logged db) (require_admin ext settings now token) _ db
        (require_admin-state ext settings now token) (λ e. refl)
        λ admin h.
          read-cases (Logged db) (find_user user_id) _ db (λ d. refl) (λ e. refl)
            λ found g. found-cases {B = UserResponse} (Logged db) _ found _ db refl λ user e.
              elim (Bool-cases (is_some req.role || is_some req.is_active)) [
                | inl some_given ↦ rw (no_changes user req, some_given) (ground arith)
                | inr none_given ↦ rw (no_changes user req, none_given) (ground arith)
              ]
