-- ===== src/Tokens/Admission.antt =====
-- What a caller of `get_current_user` has shown when it returns a user.
use accelerator_pack_auth_se.Prelude.{
  ℕ, String, List, [], ◌∷◌, ◌≡◌, refl, ap, ◌∙◌, Bool, true, false, not, ◌||◌, Option, none, some,
  ok, arith, str_eq, any, select, is_some, ok-injective, Bool-cases, inl, inr, if◌then◌else◌,
}
use accelerator_pack_auth_se.Exec.{
  Exec, pure, continue-ok, continue-state, bind-ok, guard-ok, IsReader, bind-IsReader, if-IsReader,
  guard, lift,
}
use accelerator_pack_auth_se.Table.{scalar_one_or_none}
use accelerator_pack_auth_se.Models.{Time}
use accelerator_pack_auth_se.Models.Rows.{User, TokenBlacklist}
use accelerator_pack_auth_se.Models.Database.{Database}
use accelerator_pack_auth_se.External.{External, Claims}
use accelerator_pack_auth_se.Config.{Settings}
use accelerator_pack_auth_se.ScopeString.{text_or_empty}
use accelerator_pack_auth_se.Tokens.{
  admit_claims, active_user, on_blacklist, decode_token, get_current_user, is_token_blacklisted,
  read_sub, find_user,
}
use accelerator_pack_auth_se.Tokens.Verification.{decode_token-state}

-- The claims are not a refresh token's, their jti is not blacklisted, and their subject names the
-- active user.
pub record IsAdmitted (claims : Claims) (user : User) (db : Database) : Type 0 where
  pub no_refresh : str_eq (text_or_empty claims.type) "refresh" ≡ false
  pub not_listed :
      (str_eq (text_or_empty claims.jti) ""
        || not (any (λ b. str_eq b.jti (text_or_empty claims.jti)) db.token_blacklist.rows))
      ≡ true
  pub id : ℕ
  pub subject : read_sub claims.sub ≡ ok id
  pub found : (find_user id db).0 ≡ ok (some user)
  pub active : user.is_active ≡ true

no_row :
    (xs : List TokenBlacklist) (found : Option TokenBlacklist)
    → scalar_one_or_none xs ≡ ok found
    → is_some found ≡ false
    → xs ≡ []
no_row [] found h e = refl
no_row (x ∷ []) found h e = ground arith
no_row (x ∷ y ∷ rest) found h e = cc

none_found :
    (p : TokenBlacklist → Bool) (xs : List TokenBlacklist) (found : Option TokenBlacklist)
    → scalar_one_or_none (select p xs) ≡ ok found
    → is_some found ≡ false
    → any p xs ≡ false
unfolding any select
none_found p [] found h e = refl
none_found p (x ∷ xs) found h e =
    ground (arith, no_row (select p (x ∷ xs)) found h e, none_found p xs none)

not_listed_lem :
    (jti : String) (db : Database)
    → (is_token_blacklisted jti db.token_blacklist).0 ≡ ok false
    → any (λ b. str_eq b.jti jti) db.token_blacklist.rows ≡ false
unfolding is_token_blacklisted
not_listed_lem jti db h =
    let (found, row, e) =
      continue-ok (scalar_one_or_none (select (λ b. str_eq b.jti jti) db.token_blacklist.rows)) _
        db.token_blacklist h in
    none_found (λ b. str_eq b.jti jti) db.token_blacklist.rows found row (ok-injective _ _ e)

abbrev listing : String → Exec Database Bool
listing jti = if str_eq jti "" then pure false else on_blacklist (is_token_blacklisted jti)

listing-state : (jti : String) → IsReader (listing jti)
unfolding is_token_blacklisted
listing-state jti =
    if-IsReader (str_eq jti "") (pure false) _ (λ db. refl)
      λ db.
        ap (λ t. record db { token_blacklist = t })
          (continue-state
            (scalar_one_or_none (select (λ b. str_eq b.jti jti) db.token_blacklist.rows)) _
            db.token_blacklist λ found. refl)

admit_claims-state : (claims : Claims) → IsReader (admit_claims claims)
unfolding admit_claims find_user
admit_claims-state claims =
    bind-IsReader (guard _ _) _ (λ db. refl)
      λ done. bind-IsReader (listing (text_or_empty claims.jti)) _ (listing-state _) λ listed.
        bind-IsReader (guard _ _) _ (λ db. refl)
          λ passed.
            bind-IsReader (lift (read_sub claims.sub)) _ (λ db. refl)
              λ id. bind-IsReader (find_user id) _ (λ db. refl) λ found db. refl

listing-false :
    (jti : String) (db : Database)
    → (listing jti db).0 ≡ ok false
    → (str_eq jti "" || not (any (λ b. str_eq b.jti jti) db.token_blacklist.rows)) ≡ true
listing-false jti db h = elim (Bool-cases (str_eq jti "")) [
  | inl e ↦ rw e
  | inr e ↦ rw (e, not_listed_lem jti db (rw e at h))
]

active_user-ok :
    (found : Option User) (user : User)
    → active_user found ≡ ok user
    → (found ≡ some user) × (user.is_active ≡ true)
active_user-ok none user h = cc
active_user-ok (some u) user h = (ground arith, ground arith)

not_lem : (b : Bool) → not b ≡ true → b ≡ false
not_lem true h = cc
not_lem false h = refl

admit_claims-ok :
    (claims : Claims) (user : User) (db : Database)
    → (admit_claims claims db).0 ≡ ok user
    → IsAdmitted claims user db
unfolding admit_claims find_user
admit_claims-ok claims user db h =
    let (done, fresh, h1) = bind-ok (guard _ _) _ db user (λ d. refl) h in
    let jti = text_or_empty claims.jti in
    let (listed, read, h2) = bind-ok (listing jti) _ db user (listing-state jti) h1 in
    let (unlisted, passed, h3) = bind-ok (guard _ _) _ db user (λ d. refl) h2 in
    let (id, subject, h4) = bind-ok (lift (read_sub claims.sub)) _ db user (λ d. refl) h3 in
    let (found, row, h5) = bind-ok (find_user id) _ db user (λ d. refl) h4 in
    let (same, active) = active_user-ok found user h5 in
    let clean = listing-false (text_or_empty claims.jti) db in
    record {
      no_refresh = not_lem _ (guard-ok _ _ db done fresh);
      not_listed = clean (read ∙ ap ok (not_lem listed (guard-ok _ _ db unlisted passed)));
      id = id;
      subject = subject;
      found = row ∙ ap ok same;
      active = active;
    }

module _ (ext : External) (settings : Settings) where
  pub get_current_user-state :
      (now : Time) (token : String) → IsReader (get_current_user ext settings now token)
  unfolding get_current_user
  get_current_user-state now token =
      bind-IsReader (decode_token ext settings now token) _
        (decode_token-state ext settings now token) admit_claims-state

  -- Whoever passes `get_current_user` presented a token that is decoded, is no refresh token and has
  -- not been blacklisted, and is the active user that its subject names; nothing is changed.
  pub get_current_user-ok :
      (now : Time) (token : String) (user : User) (db : Database)
      → (get_current_user ext settings now token db).0 ≡ ok user
      → (claims : Claims) × ((decode_token ext settings now token db).0 ≡ ok claims)
        × IsAdmitted claims user db
        × ((get_current_user ext settings now token db).1 ≡ db)
  unfolding get_current_user
  get_current_user-ok now token user db h =
      let (claims, decoded, rest) =
        bind-ok (decode_token ext settings now token) admit_claims db user
          (decode_token-state ext settings now token) h in
      (claims, decoded, admit_claims-ok claims user db rest, get_current_user-state now token db)
