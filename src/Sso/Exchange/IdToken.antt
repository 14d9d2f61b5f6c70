-- ===== src/Sso/Exchange/IdToken.antt =====
-- What `_verify_id_token_with_jwks` returns.
use accelerator_pack_auth_se.Prelude.{
  String, ◌≡◌, ap, subst, ◌∙◌, true, ◌&&◌, Option, none, some, ok, err, http, arith, str_eq, eq_iff,
  Bool-cases, inl, inr, then-ok, ok-injective, if◌then◌else◌,
}
use accelerator_pack_auth_se.Values.{Value, null, text, number, list, other, truthy, Dict, get}
use accelerator_pack_auth_se.Sso.Exchange.{
  KeySet, IdTokens, key_for, is_text, kid_of, or_refused, verify_id_token_with_jwks,
}

-- The claims are those of the ID token, decoded for the audience with the key of the set that its header
-- names, one of the algorithms and the issuer; and they have the nonce.
pub record IsVerified (jwt : IdTokens) (id_token : String) (jwks : KeySet)
    (audience issuer allowed_algs : Value) (nonce : String) (claims : Dict) : Type 0 where
  pub kid : String
  pub signing_key : String
  pub named : jwt.get_unverified_header id_token ≡ some (some kid)
  pub own_key : key_for jwks kid ≡ some signing_key
  pub decoded : jwt.decode id_token signing_key allowed_algs audience issuer ≡ some claims
  pub own_nonce : get claims "nonce" ≡ text nonce

or_refused-ok :
    {A : Type 0} (detail : String) (o : Option A) (a : A) → or_refused detail o ≡ ok a → o ≡ some a
or_refused-ok detail none a h = cc
or_refused-ok detail (some b) a h = cc

is_text-text : (v : Value) (s : String) → is_text v s ≡ true → v ≡ text s
is_text-text (text t) s h = ap text ((eq_iff t s).0 h)
is_text-text null s h = cc
is_text-text (number n) s h = cc
is_text-text (list xs shown) s h = cc
is_text-text (other b shown) s h = cc

pub verify_id_token_with_jwks-IsVerified :
    (jwt : IdTokens) (id_token : String) (jwks : KeySet) (audience issuer : Value) (nonce : String)
    (allowed_algs : Value) (claims : Dict)
    → verify_id_token_with_jwks jwt id_token jwks audience issuer nonce allowed_algs ≡ ok claims
    → IsVerified jwt id_token jwks audience issuer allowed_algs nonce claims
unfolding verify_id_token_with_jwks
verify_id_token_with_jwks-IsVerified jwt id_token jwks audience issuer nonce allowed_algs claims h =
    let (header, h1, r1) =
      then-ok (or_refused "Invalid ID token from IdP" (jwt.get_unverified_header id_token)) _ h in
    let (kid, h2, r2) = then-ok (kid_of header) _ r1 in
    let (key, h3, r3) =
      then-ok (or_refused "ID token signed by unknown key" (key_for jwks kid)) _ r2 in
    let (found, h4, r4) =
      then-ok
        (or_refused "Invalid ID token from IdP"
          (jwt.decode id_token key allowed_algs audience issuer))
        _ r3 in
    checked kid key found
      (of_header header kid
        (or_refused-ok "Invalid ID token from IdP" (jwt.get_unverified_header id_token) header h1)
        h2)
      (or_refused-ok "ID token signed by unknown key" (key_for jwks kid) key h3)
      (or_refused-ok "Invalid ID token from IdP" _ found h4) r4
  where
    of_header :
        (header : Option String) (kid : String)
        → jwt.get_unverified_header id_token ≡ some header
        → kid_of header ≡ ok kid
        → jwt.get_unverified_header id_token ≡ some (some kid)
    of_header none kid h e = cc
    of_header (some k) kid h e =
        h
        ∙ ap some (elim (Bool-cases (str_eq k "")) [
          | inl empty ↦ absurd (cc (rw empty at e))
          | inr given ↦ ap some (ok-injective k kid (rw given at e))
        ])

    checked :
        (kid key : String) (found : Dict)
        → jwt.get_unverified_header id_token ≡ some (some kid)
        → key_for jwks kid ≡ some key
        → jwt.decode id_token key allowed_algs audience issuer ≡ some found
        → (if truthy (get found "nonce") && is_text (get found "nonce") nonce
            then ok found
            else err (http 401 "ID token nonce mismatch"))
          ≡ ok claims
        → IsVerified jwt id_token jwks audience issuer allowed_algs nonce claims
    checked kid key found named own_key h4 r4 =
        elim (Bool-cases (truthy (get found "nonce") && is_text (get found "nonce") nonce)) [
          | inl e ↦
              let same : found ≡ claims = ok-injective found claims (rw e at r4) in
              subst (IsVerified jwt id_token jwks audience issuer allowed_algs nonce) same (record {
                kid = kid;
                signing_key = key;
                named = named;
                own_key = own_key;
                decoded = h4;
                own_nonce = is_text-text (get found "nonce") nonce (ground arith);
              })
          | inr e ↦ absurd (cc (rw e at r4))
        ]
