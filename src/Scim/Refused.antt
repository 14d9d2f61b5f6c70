-- ===== src/Scim/Refused.antt =====
-- Without the SCIM token no SCIM route answers or changes anything.
use accelerator_pack_auth_se.Prelude.{
  String, ◌≡◌, refl, ap, Bool, false, not, ◌&&◌, Error, ok, err, http, str_eq, Bool-cases, inl, inr,
  if◌then◌else◌,
}
use accelerator_pack_auth_se.Exec.{Exec, pure, IsReader, ◌>>=◌, ◌>>◌}
use accelerator_pack_auth_se.Models.{Time}
use accelerator_pack_auth_se.Models.Database.{Database}
use accelerator_pack_auth_se.External.{External}
use accelerator_pack_auth_se.Config.{Settings}
use accelerator_pack_auth_se.Scim.{require_scim_auth}
use accelerator_pack_auth_se.Scim.Handlers.{
  ScimCall, list_users, create_user, get_user, replace_user, delete_user, list_groups, create_group,
  get_group, replace_group, delete_group, scim_list_users, scim_create_user_endpoint, scim_get_user,
  scim_replace_user, scim_delete_user, scim_list_groups, scim_create_group_endpoint, scim_get_group,
  scim_replace_group, scim_delete_group,
}

-- SCIM is on, a token is configured, and its hash is the one of the credentials.
abbrev pub is_authorized : External → Settings → String → Bool
is_authorized ext settings credentials =
    settings.scim_enabled
    && (not (str_eq settings.scim_token "") && str_eq (ext.sha256 credentials) settings.scim_token)

abbrev pub refusal : Settings → Error
refusal settings =
    if settings.scim_enabled
    then if str_eq settings.scim_token ""
      then http 503 "SCIM token not configured"
      else http 401 "Invalid SCIM token"
    else http 403 "SCIM is not enabled"

module _ (ext : External) (settings : Settings) (credentials : String) where
  pub require_scim_auth_lem :
      (db : Database)
      → require_scim_auth ext settings credentials db ≡ (
        if is_authorized ext settings credentials then ok credentials else err (refusal settings),
        db,
      )
  unfolding require_scim_auth
  require_scim_auth_lem db = elim (Bool-cases settings.scim_enabled) [
    | inr off ↦ rw off refl
    | inl on ↦ elim (Bool-cases (str_eq settings.scim_token "")) [
      | inl empty ↦ rw (on, empty) refl
      | inr given ↦ elim (Bool-cases (str_eq (ext.sha256 credentials) settings.scim_token)) [
        | inl same ↦ rw (on, given, same) refl
        | inr differs ↦ rw (on, given, differs) refl
      ]
    ]
  ]

  pub require_scim_auth-IsReader : IsReader (require_scim_auth ext settings credentials)
  require_scim_auth-IsReader db = ap (λ x. x.1) (require_scim_auth_lem db)

  -- What the route of a request answers, without the body, and the database after it.
  abbrev pub serve : Time → ScimCall → Exec Database Unit
  serve now list_users = scim_list_users ext settings credentials >> pure tt
  serve now (create_user body) =
      scim_create_user_endpoint ext settings now credentials body >> pure tt
  serve now (get_user user_id) = scim_get_user ext settings credentials user_id >> pure tt
  serve now (replace_user user_id body) =
      scim_replace_user ext settings credentials user_id body >> pure tt
  serve now (delete_user user_id) = scim_delete_user ext settings credentials user_id
  serve now list_groups = scim_list_groups ext settings credentials >> pure tt
  serve now (create_group body) =
      scim_create_group_endpoint ext settings now credentials body >> pure tt
  serve now (get_group group_id) = scim_get_group ext settings credentials group_id >> pure tt
  serve now (replace_group group_id body) =
      scim_replace_group ext settings now credentials group_id body >> pure tt
  serve now (delete_group group_id) = scim_delete_group ext settings credentials group_id

  behind_auth :
      {A B : Type 0} (rest : String → Exec Database A) (last : A → Exec Database B) (db : Database)
      → is_authorized ext settings credentials ≡ false
      → ((require_scim_auth ext settings credentials >>= rest) >>= last) db
        ≡ (err (refusal settings), db)
  behind_auth rest last db out = rw (require_scim_auth_lem db, out) refl

  behind_auth_alone :
      {A : Type 0} (rest : String → Exec Database A) (db : Database)
      → is_authorized ext settings credentials ≡ false
      → (require_scim_auth ext settings credentials >>= rest) db ≡ (err (refusal settings), db)
  behind_auth_alone rest db out = rw (require_scim_auth_lem db, out) refl

  -- Unless SCIM is on, a token is configured and the credentials hash to it, every request for users
  -- or groups is refused, with the status 403, 503 or 401 for the first of these that fails, and the
  -- database stays as it was.
  pub serve-refused :
      (now : Time) (call : ScimCall) (db : Database)
      → is_authorized ext settings credentials ≡ false
      → serve now call db ≡ (err (refusal settings), db)
  unfolding scim_list_users scim_create_user_endpoint scim_get_user scim_replace_user
      scim_delete_user scim_list_groups scim_create_group_endpoint scim_get_group scim_replace_group
      scim_delete_group
  serve-refused now list_users db out = behind_auth _ _ db out
  serve-refused now (create_user body) db out = behind_auth _ _ db out
  serve-refused now (get_user user_id) db out = behind_auth _ _ db out
  serve-refused now (replace_user user_id body) db out = behind_auth _ _ db out
  serve-refused now (delete_user user_id) db out = behind_auth_alone _ db out
  serve-refused now list_groups db out = behind_auth _ _ db out
  serve-refused now (create_group body) db out = behind_auth _ _ db out
  serve-refused now (get_group group_id) db out = behind_auth _ _ db out
  serve-refused now (replace_group group_id body) db out = behind_auth _ _ db out
  serve-refused now (delete_group group_id) db out = behind_auth_alone _ db out
