-- ===== src/Tokens/Guards.antt =====
-- The dependencies that guard the routes of administrators only read the database.
use accelerator_pack_auth_se.Prelude.{
  ℕ, String, [], ◌∷◌, ◌≡◌, ◌≢◌, refl, sym, subst, ◌∙◌, true, false, none, some, ok, arith, ◌==◌,
  select,
}
use accelerator_pack_auth_se.Table.Laws.{scalar_one_or_none-some, select-head}
use accelerator_pack_auth_se.Exec.{IsReader, bind-IsReader, continue-state, guard}
use accelerator_pack_auth_se.Models.{Time}
use accelerator_pack_auth_se.Models.Rows.{User}
use accelerator_pack_auth_se.Models.Database.{Database}
use accelerator_pack_auth_se.External.{External}
use accelerator_pack_auth_se.Config.{Settings}
use accelerator_pack_auth_se.Permissions.{check_permission}
use accelerator_pack_auth_se.Tokens.{
  find_user, get_current_user, require_admin, require_permission, require_pack_permission,
}
use accelerator_pack_auth_se.Tokens.Admission.{get_current_user-state, get_current_user-ok}

pub find_user-IsReader : (id : ℕ) → IsReader (find_user id)
unfolding find_user
find_user-IsReader id db = refl

pub find_user_single :
    (id : ℕ) (u : User) (db : Database)
    → (find_user id db).0 ≡ ok (some u)
    → select (λ (x : User). x.id == id) db.users.rows ≡ u ∷ []
unfolding find_user
find_user_single id u db h = scalar_one_or_none-some _ u h

-- The user that is found has the key.
pub find_user_key :
    (id : ℕ) (u : User) (db : Database) → (find_user id db).0 ≡ ok (some u) → u.id ≡ id
find_user_key id u db h =
    let e =
      select-head (λ (x : User). x.id == id) db.users.rows u [] (find_user_single id u db h) in
    ground arith

module _ (ext : External) (settings : Settings) where
  pub require_admin-state :
      (now : Time) (token : String) → IsReader (require_admin ext settings now token)
  unfolding require_admin
  require_admin-state now token =
      bind-IsReader (get_current_user ext settings now token) _
        (get_current_user-state ext settings now token)
        λ user. bind-IsReader (guard _ _) _ (λ db. refl) λ done db. refl

  pub require_permission-state :
      (codename : String) (now : Time) (token : String)
      → IsReader (require_permission ext settings codename now token)
  unfolding require_permission
  require_permission-state codename now token =
      bind-IsReader (get_current_user ext settings now token) _
        (get_current_user-state ext settings now token)
        λ user db.
          continue-state (check_permission db user codename none none) _ db
            λ has. bind-IsReader (guard _ _) _ (λ d. refl) (λ done d. refl) db

  pub require_pack_permission-state :
      (codename : String) (now : Time) (token : String)
      → IsReader (require_pack_permission ext settings codename now token)
  unfolding require_pack_permission
  require_pack_permission-state codename now token =
      bind-IsReader (get_current_user ext settings now token) _
        (get_current_user-state ext settings now token)
        λ user. bind-IsReader (guard _ _) _ (λ db. refl) λ done db. refl

-- The user with the key, where there is one, is not active.
abbrev pub IsOut : ℕ → Database → Type 0
IsOut user_id db = (u : User) → (find_user user_id db).0 ≡ ok (some u) → u.is_active ≡ false

module _ (ext : External) (settings : Settings) where
  -- No token lets a user in who is not active.
  pub get_current_user-out :
      (now : Time) (token : String) (user_id : ℕ) (u : User) (db : Database)
      → IsOut user_id db
      → (get_current_user ext settings now token db).0 ≡ ok u
      → u.id ≢ user_id
  get_current_user-out now token user_id u db out h same =
      let (claims, decoded, admitted, kept) = get_current_user-ok ext settings now token u db h in
      let own = find_user_key admitted.id u db admitted.found in
      let found = subst (λ k. (find_user k db).0 ≡ ok (some u)) (sym own ∙ same) admitted.found in
      absurd (clash (sym admitted.active ∙ out u found))
    where
      clash : true ≡ false → ⊥
      clash e = cc
