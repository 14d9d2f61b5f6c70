-- ===== src/Accounts/Logout.antt =====
-- What logging out revokes.
use accelerator_pack_auth_se.Prelude.{
  String, ◌≡◌, refl, ap, sym, ◌∙◌, subst, Bool, true, false, not, ◌||◌, ok, arith, str_eq, eq_refl,
  ==_refl, any, select, ok-injective,
}
use accelerator_pack_auth_se.Exec.{
  Exec, bind-returns, bind-ok, bind-after, bind-goes, continue-ok, lift, pure,
}
use accelerator_pack_auth_se.Table.{scalar_one_or_none}
use accelerator_pack_auth_se.Models.{Time}
use accelerator_pack_auth_se.Models.Rows.{User}
use accelerator_pack_auth_se.Models.Database.{Database}
use accelerator_pack_auth_se.External.{
  External, Claims, Decoding, verified, expired_signature, invalid_token, IsPayload,
}
use accelerator_pack_auth_se.Config.{Settings}
use accelerator_pack_auth_se.ScopeString.{text_or_empty}
use accelerator_pack_auth_se.Sessions.{revoke_user_tokens}
use accelerator_pack_auth_se.Sessions.Limit.{open_sessions, revoke_user_tokens_lem}
use accelerator_pack_auth_se.Keys.{has_kid, get_key_by_kid}
use accelerator_pack_auth_se.StrMethods.{remove_prefix}
use accelerator_pack_auth_se.Tokens.{
  on_blacklist, blacklist_token, read_kid, check_key, read_claims, decode_token, get_current_user,
}
use accelerator_pack_auth_se.Tokens.Verification.{decode_token-state}
use accelerator_pack_auth_se.Tokens.Admission.{get_current_user-ok, get_current_user-state}
use accelerator_pack_auth_se.Accounts.{
  on_sessions, blacklist_own, logout, blacklist_claims, read_exp,
}

module _ (ext : External) (settings : Settings) where
  read_claims-verified :
      (d : Decoding) (claims : Claims) → read_claims d ≡ ok claims → d ≡ verified claims
  read_claims-verified (verified c) claims h = ap verified (ok-injective _ _ h)
  read_claims-verified expired_signature claims h = cc
  read_claims-verified invalid_token claims h = cc

  decode_token-payload :
      (payload : String → Claims) (now : Time) (token : String) (claims : Claims) (db : Database)
      → IsPayload ext.jwt payload
      → (decode_token ext settings now token db).0 ≡ ok claims
      → claims ≡ payload token
  unfolding decode_token get_key_by_kid
  decode_token-payload payload now token claims db law h =
      let (kid, named, h1) = continue-ok (read_kid (ext.jwt.get_unverified_header token)) _ db h in
      let (found, row, h2) =
        continue-ok (scalar_one_or_none (select (has_kid kid) db.signing_keys.rows)) _ db h1 in
      let (key, checked, h3) = continue-ok (check_key now found) _ db h2 in
      law.own token key.public_pem settings.issuer_url now claims (read_claims-verified _ claims h3)

  abbrev lists : String → Database → Bool
  lists jti db = any (λ b. str_eq b.jti jti) db.token_blacklist.rows

  blacklist_token-lists :
      (jti : String) (expires_at now : Time) (db : Database) (done : Unit)
      → (on_blacklist (blacklist_token jti expires_at now) db).0 ≡ ok done
      → lists jti (on_blacklist (blacklist_token jti expires_at now) db).1 ≡ true
  unfolding blacklist_token any
  blacklist_token-lists jti expires_at now db done h = ground (arith, eq_refl jti)

  blacklist_claims-lists :
      (now : Time) (claims : Claims) (missing : Exec Database Unit) (db : Database) (done : Unit)
      → str_eq (text_or_empty claims.jti) "" ≡ false
      → (blacklist_claims ext settings now claims missing db).0 ≡ ok done
      → lists (text_or_empty claims.jti) (blacklist_claims ext settings now claims missing db).1
        ≡ true
  unfolding blacklist_claims
  blacklist_claims-lists now claims missing db done there h =
      let jti = text_or_empty claims.jti in
      let (exp, read, h1) =
        bind-ok (lift (read_exp ext settings claims.exp)) _ db done (λ d. refl) (rw there at h) in
      rw (there, read) (blacklist_token-lists jti exp now db done h1)

  true_is_false : true ≡ false → ⊥
  true_is_false h = cc

  still_listed :
      (jti jti' : String) (db : Database)
      → jti ≡ jti'
      → str_eq jti' "" ≡ false
      → lists jti' db ≡ true
      → (str_eq jti "" || not (lists jti db)) ≡ false
  still_listed jti jti' db same there h = rw same (ground arith)

  blacklist_own-lists :
      (payload : String → Claims) (now : Time) (token : String) (db : Database) (done : Unit)
      → IsPayload ext.jwt payload
      → str_eq token "" ≡ false
      → str_eq (text_or_empty (payload token).jti) "" ≡ false
      → (blacklist_own ext settings now token db).0 ≡ ok done
      → lists (text_or_empty (payload token).jti) (blacklist_own ext settings now token db).1 ≡ true
  unfolding blacklist_own
  blacklist_own-lists payload now token db done law given there h =
      let (claims, decoded, h1) =
        bind-ok (decode_token ext settings now token) _ db done
          (decode_token-state ext settings now token) (rw given at h) in
      let own = decode_token-payload payload now token claims db law decoded in
      let there' = subst (λ c. str_eq (text_or_empty c.jti) "" ≡ false) (sym own) there in
      let on_list = blacklist_claims-lists now claims (pure tt) db done there' h1 in
      let path =
        bind-after (decode_token ext settings now token)
          (λ c. blacklist_claims ext settings now c (pure tt)) db claims
          (decode_token-state ext settings now token) decoded in
      rw given (
        subst (λ d. lists (text_or_empty (payload token).jti) d ≡ true) (sym (ap (λ r. r.1) path))
          (subst
            (λ c.
              lists (text_or_empty c.jti) (blacklist_claims ext settings now claims (pure tt) db).1
              ≡ true)
            own on_list))

  abbrev own_token : String → String
  own_token authorization = remove_prefix "Bearer " authorization

  -- Logging out identifies the caller, blacklists the header's token, and closes the caller's sessions.
  logout_lem :
      (now : Time) (credentials authorization : String) (db : Database) (done : Unit)
      → (logout ext settings now credentials authorization db).0 ≡ ok done
      → (caller : User) × ((get_current_user ext settings now credentials db).0 ≡ ok caller)
        × ((blacklist_own ext settings now (own_token authorization) db).0 ≡ ok tt)
        × (logout ext settings now credentials authorization db
            ≡ on_sessions
                (revoke_user_tokens caller.id)
                (blacklist_own ext settings now (own_token authorization) db).1)
  unfolding logout
  logout_lem now credentials authorization db done h =
      let read = get_current_user-state ext settings now credentials in
      let (caller, c1, h1) =
        bind-ok (get_current_user ext settings now credentials) _ db done read h in
      let (listed, l1, h2) =
        bind-returns (blacklist_own ext settings now (own_token authorization)) _ db done h1 in
      (
        caller,
        c1,
        l1,
        bind-after (get_current_user ext settings now credentials) _ db caller read c1
            ∙ bind-goes (blacklist_own ext settings now (own_token authorization)) _ db listed l1,
      )

  -- After a logout that succeeded, the token of its header is accepted for no user and at no
  -- instant; the header's token and its jti are not empty, and the token's payload is what every
  -- decoding of it returns.
  pub logout-revoked :
      (payload : String → Claims) (now later : Time) (credentials authorization : String)
      (db : Database) (user : User) (done : Unit)
      → IsPayload ext.jwt payload
      → str_eq (remove_prefix "Bearer " authorization) "" ≡ false
      → str_eq (text_or_empty (payload (remove_prefix "Bearer " authorization)).jti) "" ≡ false
      → (logout ext settings now credentials authorization db).0 ≡ ok done
      → ¬ (
          (get_current_user ext settings later
            (remove_prefix "Bearer " authorization)
            (logout ext settings now credentials authorization db).1).0
          ≡ ok user)
  unfolding revoke_user_tokens
  logout-revoked payload now later credentials authorization db user done law given there h
        accepted =
      let token = own_token authorization in
      let db' = (logout ext settings now credentials authorization db).1 in
      let jti = text_or_empty (payload token).jti in
      let (caller, c1, l1, path) = logout_lem now credentials authorization db done h in
      let kept : lists jti db' ≡ true =
        subst (λ d. lists jti d ≡ true) (sym (ap (λ r. r.1) path))
          (blacklist_own-lists payload now token db tt law given there l1) in
      let (claims', decoded', admitted, _) =
        get_current_user-ok ext settings later token user db' accepted in
      let own' = decode_token-payload payload later token claims' db' law decoded' in
      true_is_false (
        sym admitted.not_listed
        ∙ still_listed (text_or_empty claims'.jti) jti db' (ap (λ c. text_or_empty c.jti) own')
            there kept)

  -- Logging out leaves the caller without an open session.
  pub logout-sessions :
      (now : Time) (credentials authorization : String) (db : Database) (done : Unit)
      → (logout ext settings now credentials authorization db).0 ≡ ok done
      → (caller : User) × ((get_current_user ext settings now credentials db).0 ≡ ok caller)
        × (open_sessions caller.id
              (logout ext settings now credentials authorization db).1.refresh_tokens
            ≡ 0)
  logout-sessions now credentials authorization db done h =
      let (caller, c1, l1, path) = logout_lem now credentials authorization db done h in
      let after = (blacklist_own ext settings now (own_token authorization) db).1 in
      (
        caller,
        c1,
        ap (λ r. open_sessions caller.id r.1.refresh_tokens) path
            ∙ ground (
              arith,
              ==_refl caller.id,
              revoke_user_tokens_lem caller.id caller.id after.refresh_tokens,
            ),
      )
