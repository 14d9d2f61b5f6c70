-- ===== src/Sso/Provisioning/Users.antt =====
-- What a login does to the accounts.
use accelerator_pack_auth_se.Prelude.{
  String, ◌∷◌, ◌≡◌, ◌≢◌, Bool, true, false, Result, ok, str_eq, any, ◌⊎◌,
}
use accelerator_pack_auth_se.Exec.{Exec, pure, lift, ◌>>=◌}
use accelerator_pack_auth_se.Values.{Value}
use accelerator_pack_auth_se.Models.{Time, Role}
use accelerator_pack_auth_se.Models.Rows.{User}
use accelerator_pack_auth_se.Models.Database.{Database}
use accelerator_pack_auth_se.Accounts.{add_user}
use accelerator_pack_auth_se.Sso.Provisioning.{column_text, sso_user}

-- The accounts are as they were, and the call does not say that it made one.
abbrev pub AreKept : Database → Result (User × Bool) × Database → Type 0
AreKept db (r, after) = (after.users.rows ≡ db.users.rows) × ((user : User) → r ≢ ok (user, true))

-- One account is new: a plain user that is active, without scopes of its own and without a password,
-- under an email that no account had. The call returns it.
abbrev pub OneIsNew : Database → Result (User × Bool) × Database → Type 0
OneIsNew db (r, after) =
    (user : User) × (after.users.rows ≡ user ∷ db.users.rows)
    × (r ≡ ok (user, true))
    × (user.role ≡ Role.user)
    × (user.password_hash ≡ "!sso-only")
    × (any (λ u. str_eq u.email user.email) db.users.rows ≡ false)

abbrev pub Provisioned : Database → Result (User × Bool) × Database → Type 0
Provisioned db outcome = AreKept db outcome ⊎ OneIsNew db outcome

creating : (s : String) (name : Value) (now : Time) → Exec Database (User × Bool)
creating s name now = lift (column_text name) >>= λ name_text.
    add_user (sso_user s name_text now) >>= λ user. pure (user, true)
