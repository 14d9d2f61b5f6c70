-- ===== src/Tokens/Tests.antt =====
-- Witnesses for the theorems on access tokens.
use accelerator_pack_auth_se.Prelude.{
  ◌≤◌, String, [], ◌∷◌, ◌≡◌, refl, ◌&&◌, ◌||◌, some, ok, err, value_error, arith, any, select,
  length,
}
use accelerator_pack_auth_se.Table.{order_desc}
use accelerator_pack_auth_se.Decimal.{int, str}
use accelerator_pack_auth_se.External.{Claims, IsSigned}
use accelerator_pack_auth_se.Keys.{
  has_kid, get_key_by_kid, get_active_signing_key, list_keys_for_jwks, in_jwks_status, in_grace,
}
use accelerator_pack_auth_se.Samples.{
  ext, ext_with, settings, now, alice, alice_claims, key, robot, db, fresh_token, signed,
}
use accelerator_pack_auth_se.Tokens.{
  read_kid, check_key, is_accepted, admit_claims, is_token_blacklisted, read_sub, find_user,
  client_claims, token_header, create_access_token, create_client_access_token, decode_token,
  get_current_user,
}
use accelerator_pack_auth_se.Tokens.Verification.{
  at_edge, list_keys_for_jwks_lem, IsDecoded, decode_token-ok,
}
use accelerator_pack_auth_se.Tokens.Admission.{IsAdmitted, get_current_user-ok}
use accelerator_pack_auth_se.Tokens.Minting.{get_current_user-minted, get_current_user-client}

list_keys_for_jwks_lem_example :
    any (has_kid "k1") (key ∷ [])
    ≡ any (λ k. has_kid "k1" k && (is_accepted now k || at_edge now k)) db.signing_keys.rows
unfolding list_keys_for_jwks in_jwks_status in_grace order_desc select
list_keys_for_jwks_lem_example =
    list_keys_for_jwks_lem now "k1" db.signing_keys (key ∷ []) (omega arith) refl

decoded : (decode_token ext settings now "k1" db).0 ≡ ok alice_claims
unfolding decode_token read_kid get_key_by_kid select check_key is_accepted
decoded = refl

decode_token-ok_example : IsDecoded ext settings now "k1" alice_claims db
decode_token-ok_example = decode_token-ok ext settings now "k1" alice_claims db decoded

admitted : (get_current_user ext settings now "k1" db).0 ≡ ok alice
unfolding get_current_user decode_token read_kid get_key_by_kid select check_key is_accepted
    admit_claims is_token_blacklisted read_sub int str find_user
admitted = refl

get_current_user-ok_example :
    (claims : Claims) × ((decode_token ext settings now "k1" db).0 ≡ ok claims)
    × IsAdmitted claims alice db
    × ((get_current_user ext settings now "k1" db).1 ≡ db)
get_current_user-ok_example = get_current_user-ok ext settings now "k1" alice db admitted

one_key : (kid : String) → length (select (has_kid kid) db.signing_keys.rows) ≤ 1
unfolding select
one_key kid = ground arith

signing : (get_active_signing_key fresh_token.key now db.signing_keys).0 ≡ ok key
unfolding get_active_signing_key order_desc select
signing = refl

get_current_user-minted_example :
    let (minted, db') =
      create_access_token ext settings fresh_token now alice (some ("read" ∷ [])) db in
    (token : String) × (minted ≡ ok token)
    × ((get_current_user ext settings now token db').0 ≡ ok alice)
unfolding any find_user select
get_current_user-minted_example =
    get_current_user-minted ext settings fresh_token now now alice (some ("read" ∷ [])) key db
      one_key signing signed refl refl refl refl refl (omega arith)

abbrev robot_claims : Claims
robot_claims = client_claims settings robot ("read" ∷ []) "j1" now

robot-IsSigned :
    IsSigned
      (ext_with robot_claims).jwt
      robot_claims
      key.private_pem
      key.public_pem
      (token_header key)
robot-IsSigned = record {
  header-encode = refl;
  decode-encode = λ issuer exp now iss expires time. refl;
}

get_current_user-client_example :
    let (minted, db') =
      create_client_access_token
        (ext_with robot_claims)
        settings
        fresh_token
        now
        robot
        (some ("read" ∷ []))
        db in
    (token : String) × (minted ≡ ok token)
    × ((get_current_user (ext_with robot_claims) settings now token db').0
        ≡ err (value_error "int"))
unfolding any
get_current_user-client_example =
    get_current_user-client (ext_with robot_claims) settings fresh_token now now robot
      (some ("read" ∷ [])) key db one_key signing robot-IsSigned refl refl refl (omega arith)
