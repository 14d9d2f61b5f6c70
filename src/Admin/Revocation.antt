-- ===== src/Admin/Revocation.antt =====
-- What deleting a signing key means for the tokens that were signed with it.
use Prim.Native.String as Text
use accelerator_pack_auth_se.Prelude.{
  String, ◌≡◌, refl, ap, sym, ◌∙◌, subst, Option, none, some, Error, http, ok, err,
}
use accelerator_pack_auth_se.Exec.{
  Exec, bind-ok, bind-returns, bind-after, bind-goes, found_or, raise,
}
use accelerator_pack_auth_se.Models.{Time}
use accelerator_pack_auth_se.Models.Rows.{User, SigningKey}
use accelerator_pack_auth_se.Models.Database.{Database}
use accelerator_pack_auth_se.External.{External}
use accelerator_pack_auth_se.Config.{Settings}
use accelerator_pack_auth_se.Audit.{log_audit}
use accelerator_pack_auth_se.Keys.{revoke, get_key_by_kid, revoke_key}
use accelerator_pack_auth_se.Keys.Rotation.{revoke_key-some}
use accelerator_pack_auth_se.Tokens.{
  on_keys, unauthorized, read_kid, check_key, require_admin, decode_token,
}
use accelerator_pack_auth_se.Admin.{delete_signing_key, audit_as}
use accelerator_pack_auth_se.Tokens.Guards.{require_admin-state}

module _ (ext : External) (settings : Settings) where
  -- What the handler does once the key was looked for.
  abbrev recorded : User → String → Time → Option SigningKey → Exec Database Unit
  recorded admin kid now revoked =
      found_or (raise (http 404 "Signing key not found")) revoked
        λ k. audit_as admin "revoke_signing_key" (Text.◌++◌ "kid=" kid) now

  recorded-ok :
      (admin : User) (kid : String) (now : Time) (revoked : Option SigningKey) (db : Database)
      (done : Unit)
      → (recorded admin kid now revoked db).0 ≡ ok done
      → (r : SigningKey) × (revoked ≡ some r)
  recorded-ok admin kid now none db done h = absurd (not_ok h)
    where
      not_ok : {e : Error} → err e ≡ ok done → ⊥
      not_ok h = cc
  recorded-ok admin kid now (some r) db done h = (r, refl)

  recorded-keys :
      (admin : User) (kid : String) (now : Time) (revoked : Option SigningKey) (db : Database)
      → (recorded admin kid now revoked db).1.signing_keys ≡ db.signing_keys
  unfolding log_audit
  recorded-keys admin kid now none db = refl
  recorded-keys admin kid now (some r) db = refl

  refused :
      (later : Time) (token kid : String) (k : SigningKey) (now : Time) (db : Database)
      → read_kid (ext.jwt.get_unverified_header token) ≡ ok kid
      → (get_key_by_kid kid db.signing_keys).0 ≡ ok (some (revoke now k))
      → (decode_token ext settings later token db).0
        ≡ err (unauthorized "Unknown or revoked signing key")
  unfolding decode_token get_key_by_kid check_key
  refused later token kid k now db named found = rw (named, found) refl

  -- After a signing key has been deleted, every token that names it is refused with the status 401, at
  -- any time, whatever its signature and claims are.
  pub delete_signing_key-refused :
      (now later : Time) (caller token kid : String) (db : Database) (done : Unit)
      → (delete_signing_key ext settings now caller kid db).0 ≡ ok done
      → read_kid (ext.jwt.get_unverified_header token) ≡ ok kid
      → (decode_token ext settings later token
          (delete_signing_key ext settings now caller kid db).1).0
        ≡ err (unauthorized "Unknown or revoked signing key")
  unfolding delete_signing_key log_audit
  delete_signing_key-refused now later caller token kid db done h named =
      let read = require_admin-state ext settings now caller in
      let (admin, a1, h1) = bind-ok (require_admin ext settings now caller) _ db done read h in
      let (revoked, r1, h2) =
        bind-returns (on_keys (revoke_key kid now)) (recorded admin kid now) db done h1 in
      let (r, found) = recorded-ok admin kid now revoked _ done h2 in
      let path : delete_signing_key ext settings now caller kid db
          ≡ recorded admin kid now revoked (on_keys (revoke_key kid now) db).1 =
        bind-after (require_admin ext settings now caller) _ db admin read a1
        ∙ bind-goes (on_keys (revoke_key kid now)) (recorded admin kid now) db revoked r1 in
      let (k, marked) = revoke_key-some kid now db.signing_keys r (r1 ∙ ap ok found) in
      refused later token kid k now _ named (
        subst (λ t. (get_key_by_kid kid t).0 ≡ ok (some (revoke now k)))
          (sym (ap (λ r. r.1.signing_keys) path ∙ recorded-keys admin kid now revoked _)) marked)
