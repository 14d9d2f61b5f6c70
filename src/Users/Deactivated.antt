-- ===== src/Users/Deactivated.antt =====
-- What deactivating a user means for the tokens that the user still holds.
use accelerator_pack_auth_se.Prelude.{
  ℕ, String, List, [], ◌∷◌, ◌≡◌, ◌≢◌, ap, sym, subst, ◌∙◌, false, some, Result, ok, err, ◌==◌,
  ==_refl, select, map,
}
use accelerator_pack_auth_se.Exec.{◌>>=◌}
use accelerator_pack_auth_se.Exec.Cases.{read-cases, found-cases}
use accelerator_pack_auth_se.Table.{update_where, scalar_one_or_none}
use accelerator_pack_auth_se.Table.Apart.{select-replace_self}
use accelerator_pack_auth_se.Models.{Time}
use accelerator_pack_auth_se.Models.Rows.{User}
use accelerator_pack_auth_se.Models.Database.{Database}
use accelerator_pack_auth_se.External.{External}
use accelerator_pack_auth_se.Config.{Settings}
use accelerator_pack_auth_se.Audit.{log_audit}
use accelerator_pack_auth_se.Tokens.{require_admin, find_user, get_current_user}
use accelerator_pack_auth_se.Tokens.Guards.{
  require_admin-state, find_user_single, find_user-IsReader, find_user_key, IsOut,
  get_current_user-out,
}
use accelerator_pack_auth_se.Roles.{or_keep}
use accelerator_pack_auth_se.Users.{
  UpdateUserRequest, UserResponse, apply_user_update, save_user, audit_changes, update_user,
}

-- A user who was replaced by one who is not active.
pub save_user-IsOut :
    (user_id : ℕ) (user user' : User) (db : Database)
    → (find_user user_id db).0 ≡ ok (some user)
    → user'.id ≡ user_id
    → user'.is_active ≡ false
    → IsOut user_id (save_user user' db)
unfolding save_user find_user
save_user-IsOut user_id user user' db found same out u h =
    let key = λ (k : ℕ) (x : User). x.id == k in
    let saved : select (key user_id) (update_where (key user'.id) (λ x. user') db.users.rows)
        ≡ user' ∷ [] =
      subst
        (λ k.
          select (key k) (update_where (key user'.id) (λ x. user') db.users.rows)
          ≡ map (λ x. user') (select (key k) db.users.rows))
        same (select-replace_self (key user'.id) user' db.users.rows (==_refl user'.id))
      ∙ ap (map (λ x. user')) (find_user_single user_id user db found) in
    let here : ok (some user') ≡ ok (some u) = ap scalar_one_or_none (sym saved) ∙ h in
    let e : user' ≡ u = cc in subst (λ x. x.is_active ≡ false) e out

module _ (ext : External) (settings : Settings) (now : Time) (caller : String) (user_id : ℕ)
    (req : UpdateUserRequest) (off : req.is_active ≡ some false) where
  abbrev Outcome : Result UserResponse × Database → Type 0
  Outcome (ok response, db) = IsOut user_id db
  Outcome (err e, db) = Unit

  out_after_audit :
      (admin : User) (made : List String) (db : Database) (response : UserResponse)
      → IsOut user_id db
      → Outcome
          ((audit_changes ext settings now admin user_id made >>= λ done. λ d. (ok response, d)) db)
  unfolding audit_changes log_audit find_user
  out_after_audit admin [] db response out = out
  out_after_audit admin (s ∷ made) db response out = out

  update_user-IsOut : (db : Database) → Outcome (update_user ext settings now caller user_id req db)
  unfolding update_user apply_user_update
  update_user-IsOut db =
      read-cases Outcome (require_admin ext settings now caller) _ db
        (require_admin-state ext settings now caller) (λ e. tt)
        λ admin h.
          read-cases Outcome (find_user user_id) _ db (find_user-IsReader user_id) (λ e. tt)
            λ found g. found-cases {B = UserResponse} Outcome _ found _ db tt λ user e.
              let here = g ∙ ap ok e in
              out_after_audit admin _ _ _ (
                save_user-IsOut user_id user (apply_user_update req user) db here
                  (find_user_key user_id user db here) (ap (λ o. or_keep o user.is_active) off))

  -- Once an administrator has deactivated a user, no token that the user holds lets the user in at any
  -- route, at any time, until the users change again.
  pub update_user-deactivated :
      (later : Time) (token : String) (db : Database) (response : UserResponse) (u : User)
      → (update_user ext settings now caller user_id req db).0 ≡ ok response
      → (get_current_user ext settings later token
          (update_user ext settings now caller user_id req db).1).0
        ≡ ok u
      → u.id ≢ user_id
  update_user-deactivated later token db response u done h =
      get_current_user-out ext settings later token user_id u _
        (of_ok (update_user ext settings now caller user_id req db) response done
          (update_user-IsOut db))
        h
    where
      of_ok :
          (outcome : Result UserResponse × Database) (r : UserResponse)
          → outcome.0 ≡ ok r
          → Outcome outcome
          → IsOut user_id outcome.1
      of_ok (ok r', db') r e out = out
      of_ok (err e', db') r e out = cc
