-- ===== src/Tokens/Verification.antt =====
-- Which keys verify a token, against which keys are published, and what a passed check guarantees.
use accelerator_pack_auth_se.Prelude.{
  ◌+◌, ◌≤◌, String, List, ◌≡◌, refl, ap, sym, ◌∙◌, Bool, true, false, ◌&&◌, ◌||◌, Option, none,
  some, ok, err, arith, ◌<◌, ◌≢◌, ◌⊎◌, inl, inr, [], ◌∷◌, not, leb, str_eq, eq_iff, Bool-cases,
  if◌then◌else◌, ◌==◌, any, select, fun_ext, ok-injective,
}
use accelerator_pack_auth_se.Exec.{continue-ok, continue-state}
use accelerator_pack_auth_se.Table.{scalar_one_or_none, order_desc}
use accelerator_pack_auth_se.Table.Laws.{any-order_desc, any-select_both, scalar_one_or_none-some}
use accelerator_pack_auth_se.Models.{
  Time, SigningKeyStatus, active, rotating_out, revoked, is_rotating_out, is_revoked,
}
use accelerator_pack_auth_se.ScopeString.{text_or_empty}
use accelerator_pack_auth_se.Models.Rows.{SigningKey}
use accelerator_pack_auth_se.Models.Database.{Database}
use accelerator_pack_auth_se.External.{
  External, Claims, Header, Decoding, verified, expired_signature, invalid_token,
}
use accelerator_pack_auth_se.Config.{Settings}
use accelerator_pack_auth_se.Keys.{
  Keys, rotating_out_grace, has_kid, in_jwks_status, in_grace, list_keys_for_jwks, get_key_by_kid,
}
use accelerator_pack_auth_se.Tokens.{
  unauthorized, is_accepted, check_key, read_kid, read_claims, decode_token,
}

-- A key that rotates out and whose grace window ends at this very instant.
abbrev pub at_edge : Time → SigningKey → Bool
at_edge now k =
    is_rotating_out k.status
    && elim k.rotated_at [ none ↦ false | some at ↦ at + rotating_out_grace == now ]

published_iff :
    (now : Time) (k : SigningKey)
    → rotating_out_grace ≤ now
    → (in_jwks_status k && in_grace now k) ≡ (is_accepted now k || at_edge now k)
unfolding in_jwks_status in_grace is_accepted
published_iff now k h = ground arith

-- A kid is in the published document exactly when a key with that kid verifies tokens or its grace
-- window ends at this very instant: the two places disagree on that instant alone. The instant is
-- at least the grace window after the epoch.
pub list_keys_for_jwks_lem :
    (now : Time) (kid : String) (t : Keys) (published : List SigningKey)
    → rotating_out_grace ≤ now
    → (list_keys_for_jwks now t).0 ≡ ok published
    → any (has_kid kid) published
      ≡ any (λ k. has_kid kid k && (is_accepted now k || at_edge now k)) t.rows
unfolding list_keys_for_jwks
list_keys_for_jwks_lem now kid t published h e =
    let created : SigningKey → Time = λ k. k.created_at in
    let in_status = select in_jwks_status t.rows in
    ap (any (has_kid kid)) (sym (ok-injective _ _ e))
    ∙ any-select_both (has_kid kid) (in_grace now) (order_desc created in_status)
    ∙ any-order_desc (λ k. in_grace now k && has_kid kid k) created in_status
    ∙ any-select_both (λ k. in_grace now k && has_kid kid k) in_jwks_status t.rows
    ∙ ap (λ p. any p t.rows) (fun_ext λ k. ground (arith, published_iff now k h))

-- The key is active, or it rotates out and its grace window is not over.
abbrev pub IsUsable : Time → SigningKey → Type 0
IsUsable now key =
    (key.status ≡ active)
    ⊎ ((key.status ≡ rotating_out)
        × ((at : Time) × (key.rotated_at ≡ some at) × (now < at + rotating_out_grace)))

is_accepted-IsUsable :
    (now : Time) (key : SigningKey) → is_accepted now key ≡ true → IsUsable now key
unfolding is_accepted
is_accepted-IsUsable now key h = go key.status key.rotated_at h
  where
    go :
        (status : SigningKeyStatus) (rotated_at : Option Time)
        → (if is_revoked status
            then false
            else if is_rotating_out status
            then elim rotated_at [
              | none ↦ false
              | some at ↦ not (leb (at + rotating_out_grace) now)
            ]
            else true)
          ≡ true
        → (status ≡ active)
          ⊎ ((status ≡ rotating_out)
              × ((at : Time) × (rotated_at ≡ some at) × (now < at + rotating_out_grace)))
    go active rotated_at h = inl refl
    go rotating_out (some at) h = inr (refl, (at, refl, ground arith))
    go rotating_out none h = cc
    go revoked rotated_at h = cc

check_key-ok :
    (now : Time) (found : Option SigningKey) (key : SigningKey)
    → check_key now found ≡ ok key
    → (found ≡ some key) × IsUsable now key
unfolding check_key
check_key-ok now none key h = cc
check_key-ok now (some k) key h = (ground arith, is_accepted-IsUsable now key (ground arith))

read_kid-ok :
    (o : Option Header) (kid : String)
    → read_kid o ≡ ok kid
    → (header : Header) × (o ≡ some header) × (header.kid ≡ some kid) × (kid ≢ "")
unfolding read_kid
read_kid-ok none kid h = cc
read_kid-ok (some header) kid h =
    let (named, given) = kid_given header.kid kid h in (header, refl, named, given)
  where
    kid_given :
        (o : Option String) (kid : String)
        → (if str_eq (text_or_empty o) ""
            then err (unauthorized "Token missing kid header")
            else ok (text_or_empty o))
          ≡ ok kid
        → (o ≡ some kid) × (kid ≢ "")
    kid_given none kid h = cc
    kid_given (some k) kid h = elim (Bool-cases (str_eq k "")) [
      | inl e ↦ absurd (cc (rw e at h))
      | inr e ↦
          let same : k ≡ kid = ok-injective k kid (rw e at h) in
          (ap some same, λ empty. absurd (cc ((eq_iff k "").1 (same ∙ empty), e)))
    ]

read_claims-ok : (d : Decoding) (claims : Claims) → read_claims d ≡ ok claims → d ≡ verified claims
read_claims-ok (verified c) claims h = ap verified (ok-injective c claims h)
read_claims-ok expired_signature claims h = cc
read_claims-ok invalid_token claims h = cc

module _ (ext : External) (settings : Settings) where
  pub decode_token-state :
      (now : Time) (token : String) (db : Database)
      → (decode_token ext settings now token db).1 ≡ db
  unfolding decode_token get_key_by_kid
  decode_token-state now token db =
      continue-state (read_kid (ext.jwt.get_unverified_header token)) _ db λ kid.
        continue-state (scalar_one_or_none (select (has_kid kid) db.signing_keys.rows)) _ db
          λ found. continue-state (check_key now found) _ db λ key. refl

  -- What the claims of a decoded token rest on.
  pub record IsDecoded (now : Time) (token : String) (claims : Claims) (db : Database)
      : Type 0 where
    header : Header
    readable : ext.jwt.get_unverified_header token ≡ some header
    kid : String
    named : header.kid ≡ some kid
    given : kid ≢ ""
    key : SigningKey
    only : select (has_kid kid) db.signing_keys.rows ≡ key ∷ []
    usable : IsUsable now key
    decoded : ext.jwt.decode token key.public_pem settings.issuer_url now ≡ verified claims
    unchanged : (decode_token ext settings now token db).1 ≡ db

  -- A token is decoded only where its header names a kid that is the kid of one key of the table alone;
  -- the key is active, or it rotates out and its grace window is not over; and PyJWT verified the
  -- token with the public part of that key and the configured issuer at that instant, and gave these
  -- claims. Decoding changes nothing.
  pub decode_token-ok :
      (now : Time) (token : String) (claims : Claims) (db : Database)
      → (decode_token ext settings now token db).0 ≡ ok claims
      → IsDecoded now token claims db
  unfolding decode_token get_key_by_kid
  decode_token-ok now token claims db h =
      let (kid, read, h1) = continue-ok (read_kid (ext.jwt.get_unverified_header token)) _ db h in
      let (found, row, h2) =
        continue-ok (scalar_one_or_none (select (has_kid kid) db.signing_keys.rows)) _ db h1 in
      let (key, checked, h3) = continue-ok (check_key now found) _ db h2 in
      let (same, usable) = check_key-ok now found key checked in
      let (header, readable, named, given) =
        read_kid-ok (ext.jwt.get_unverified_header token) kid read in
      record {
        header = header;
        readable = readable;
        kid = kid;
        named = named;
        given = given;
        key = key;
        only =
            scalar_one_or_none-some (select (has_kid kid) db.signing_keys.rows) key
              (row ∙ ap ok same);
        usable = usable;
        decoded =
            read_claims-ok (ext.jwt.decode token key.public_pem settings.issuer_url now) claims h3;
        unchanged = decode_token-state now token db;
      }
