-- ===== src/Keys.antt =====
-- crypto.py: the life of the signing keys, over the table of signing keys. The key pair and the
-- kid of a new key come from outside: `fresh` holds what `_generate_kid` and
-- `_generate_rsa_keypair` return.
pub mod Rotation
pub mod Signing
mod Tests
use accelerator_pack_auth_se.Prelude.{
  ℕ, ◌+◌, ◌-◌, String, List, [], ◌∷◌, Bool, true, false, not, ◌&&◌, ◌||◌, Option, none, some,
  Result, ok, err, integrity_error, ltb, leb, str_eq, head?, any, select, if◌then◌else◌,
}
use accelerator_pack_auth_se.Exec.{Exec, pure, raise, gets, modify, continue, ◌>>=◌, ◌>>◌}
use accelerator_pack_auth_se.Table.{Table, insert_row, update_where, scalar_one_or_none, order_desc}
use accelerator_pack_auth_se.Models.{
  Time, hours, SigningKeyStatus, is_active_status, is_rotating_out, is_revoked,
}
use accelerator_pack_auth_se.Models.Rows.{SigningKey}

abbrev pub Keys : Type 0
Keys = Table SigningKey

abbrev pub rotating_out_grace : Time
rotating_out_grace = hours 24

pub record FreshKey : Type 0 where
  pub kid : String
  pub public_pem : String
  pub private_pem : String

abbrev pub new_key : FreshKey → Time → ℕ → SigningKey
new_key fresh now id = record {
  id = id;
  kid = fresh.kid;
  algorithm = "RS256";
  public_pem = fresh.public_pem;
  private_pem = fresh.private_pem;
  status = SigningKeyStatus.active;
  created_at = now;
  rotated_at = none;
  revoked_at = none;
}

abbrev pub has_kid : String → SigningKey → Bool
has_kid kid k = str_eq k.kid kid

abbrev pub is_active : SigningKey → Bool
is_active k = is_active_status k.status

-- The column `kid` is unique: a second key with one kid fails at the commit.
unfoldable pub create_signing_key : FreshKey → Time → Exec Keys SigningKey
create_signing_key fresh now t =
    if any (has_kid fresh.kid) t.rows
    then (err integrity_error, t)
    else (ok (new_key fresh now t.next_id), insert_row (new_key fresh now) t)

or_create : FreshKey → Time → Option SigningKey → Exec Keys SigningKey
or_create fresh now none t = create_signing_key fresh now t
or_create fresh now (some k) t = (ok k, t)

unfoldable pub get_active_signing_key : FreshKey → Time → Exec Keys SigningKey
unfolding or_create
get_active_signing_key fresh now t =
    or_create fresh now (head? (order_desc (λ k. k.created_at) (select is_active t.rows))) t

unfoldable pub get_key_by_kid : String → Exec Keys (Option SigningKey)
get_key_by_kid kid t = (scalar_one_or_none (select (has_kid kid) t.rows), t)

-- `status IN (active, rotating_out)`
unfoldable pub in_jwks_status : SigningKey → Bool
in_jwks_status k = is_active_status k.status || is_rotating_out k.status

-- The body of the loop: a key that rotates out needs its time of rotation, at the cutoff or later.
unfoldable pub in_grace : Time → SigningKey → Bool
in_grace now k =
    if is_rotating_out k.status
    then elim k.rotated_at [ none ↦ false | some at ↦ not (ltb at (now - rotating_out_grace)) ]
    else true

unfoldable pub list_keys_for_jwks : Time → Exec Keys (List SigningKey)
unfolding in_jwks_status in_grace
list_keys_for_jwks now t =
    (ok (select (in_grace now) (order_desc (λ k. k.created_at) (select in_jwks_status t.rows))), t)

abbrev pub rotate_out : Time → SigningKey → SigningKey
rotate_out now k = record k { status = SigningKeyStatus.rotating_out; rotated_at = some now }

-- The first commit stays if the new key cannot be stored.
unfoldable pub rotate_active_key : FreshKey → Time → Exec Keys SigningKey
rotate_active_key fresh now = do
  modify (λ t. record t { rows = update_where is_active (rotate_out now) t.rows })
  create_signing_key fresh now

abbrev pub revoke : Time → SigningKey → SigningKey
revoke now k = record k { status = SigningKeyStatus.revoked; revoked_at = some now }

unfoldable pub revoke_found : String → Time → Option SigningKey → Exec Keys (Option SigningKey)
revoke_found kid now none t = (ok none, t)
revoke_found kid now (some k) t =
    (ok (some (revoke now k)), record t { rows = update_where (has_kid kid) (revoke now) t.rows })

unfoldable pub revoke_key : String → Time → Exec Keys (Option SigningKey)
unfolding revoke_found
revoke_key kid now = do key ← get_key_by_kid kid; revoke_found kid now key
