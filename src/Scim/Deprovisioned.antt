-- ===== src/Scim/Deprovisioned.antt =====
-- What the deletion of a user over SCIM means for what the user still holds.
use accelerator_pack_auth_se.Prelude.{
  ℕ, String, List, [], ◌∷◌, ◌∙◌, arith, ◌≡◌, refl, ap, sym, subst, false, Result, ok, err, any,
}
use accelerator_pack_auth_se.Exec.Cases.{read-cases, found-cases}
use accelerator_pack_auth_se.Models.{Time}
use accelerator_pack_auth_se.Models.Rows.{User, RefreshToken}
use accelerator_pack_auth_se.Models.Database.{Database}
use accelerator_pack_auth_se.External.{External}
use accelerator_pack_auth_se.Config.{Settings}
use accelerator_pack_auth_se.Sessions.{revoke_user_tokens, is_open, close}
use accelerator_pack_auth_se.Table.{update_where}
use accelerator_pack_auth_se.Tokens.{find_user, get_current_user}
use accelerator_pack_auth_se.Tokens.Guards.{
  find_user-IsReader, find_user_key, IsOut, get_current_user-out,
}
use accelerator_pack_auth_se.Users.{save_user}
use accelerator_pack_auth_se.Users.Deactivated.{save_user-IsOut}
use accelerator_pack_auth_se.Scim.{require_scim_auth}
use accelerator_pack_auth_se.Scim.Refused.{require_scim_auth-IsReader}
use accelerator_pack_auth_se.Scim.Handlers.{scim_delete_user, deactivated}

-- The user is out, and has no refresh token that is open.
abbrev IsGone : ℕ → Database → Type 0
IsGone user_id db = IsOut user_id db × (any (is_open user_id) db.refresh_tokens.rows ≡ false)

closed-none :
    (user_id : ℕ) (rows : List RefreshToken)
    → any (is_open user_id) (update_where (is_open user_id) close rows) ≡ false
unfolding any update_where
closed-none user_id [] = refl
closed-none user_id (r ∷ rows) = ground (arith, closed-none user_id rows)

module _ (ext : External) (settings : Settings) (credentials : String) (user_id : ℕ) where
  abbrev Outcome : Result (Unit {0}) × Database → Type 0
  Outcome (ok done, db) = IsGone user_id db
  Outcome (err e, db) = Unit

  scim_delete_user-IsGone :
      (db : Database) → Outcome (scim_delete_user ext settings credentials user_id db)
  unfolding scim_delete_user revoke_user_tokens save_user find_user
  scim_delete_user-IsGone db =
      read-cases Outcome (require_scim_auth ext settings credentials) _ db
        (require_scim_auth-IsReader ext settings credentials) (λ e. tt)
        λ token h.
          read-cases Outcome (find_user user_id) _ db (find_user-IsReader user_id) (λ e. tt)
            λ found g. found-cases {B = Unit} Outcome _ found _ db tt λ user e.
              let here = g ∙ ap ok e in
              let own = find_user_key user_id user db here in
              (
                save_user-IsOut user_id user (deactivated user) db here own refl,
                subst
                    (λ k.
                      any (is_open user_id) (update_where (is_open k) close db.refresh_tokens.rows)
                      ≡ false)
                    (sym own) (closed-none user_id db.refresh_tokens.rows),
              )

  -- Some token lets the user in at a route, at some time.
  abbrev pub IsLetIn : Database → Type 0
  IsLetIn db =
      (later : Time) × (token : String) × (u : User) × ((get_current_user ext settings later token
          db).0
        ≡ ok u)
      × (u.id ≡ user_id)

  -- Once SCIM has deleted a user, no refresh token of the user is open and no token that the user
  -- holds lets the user in at any route, at any time, until the users or the sessions change again.
  pub scim_delete_user-gone :
      (db : Database) (done : Unit {0})
      → (scim_delete_user ext settings credentials user_id db).0 ≡ ok done
      → (any
            (is_open user_id)
            (scim_delete_user ext settings credentials user_id db).1.refresh_tokens.rows
          ≡ false)
        × ¬ (IsLetIn (scim_delete_user ext settings credentials user_id db).1)
  scim_delete_user-gone db done h =
      let (out, closed) =
        of_ok (scim_delete_user ext settings credentials user_id db) h
          (scim_delete_user-IsGone db) in
      (
        closed,
        λ (later, token, u, entered, same).
            get_current_user-out ext settings later token user_id u _ out entered same,
      )
    where
      of_ok :
          (outcome : Result (Unit {0}) × Database)
          → outcome.0 ≡ ok done
          → Outcome outcome
          → IsGone user_id outcome.1
      of_ok (ok r', db') e out = out
      of_ok (err e', db') e out = cc
