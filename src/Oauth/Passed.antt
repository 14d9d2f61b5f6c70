-- ===== src/Oauth/Passed.antt =====
-- What a request and an account have passed, by the checks of the token endpoint one at a time.
use accelerator_pack_auth_se.Prelude.{
  both_true, String, ◌≡◌, refl, ap, ◌&&◌, true, false, Option, none, some, arith, Bool, not,
  is_some, str_eq, eq_iff, leb, ◌<◌, ◌≢◌, ◌⊎◌, if◌then◌else◌, inl, inr,
}
use accelerator_pack_auth_se.Models.{Time}
use accelerator_pack_auth_se.Models.Rows.{ServiceAccount}
use accelerator_pack_auth_se.External.{External, Bcrypt}
use accelerator_pack_auth_se.Config.{Settings}
use accelerator_pack_auth_se.ScopeString.{text_or_empty}
use accelerator_pack_auth_se.Clients.{or_mismatch, verify_secret, is_client_usable}
use accelerator_pack_auth_se.StrMethods.{before, strip, lower_eq}
use accelerator_pack_auth_se.Oauth.{
  TokenRequest, Reply, precheck, is_form_urlencoded, parse_basic_auth, form_has_credentials,
}

pub not_empty : (s : String) → not (str_eq s "") ≡ true → s ≢ ""
not_empty s h e = absurd (ground (arith, eq_iff s ""))

-- A refusal that was not given.
passes :
    (b : Bool) (r : Reply) (rest : Option Reply)
    → (if b then some r else rest) ≡ none
    → (b ≡ false) × (rest ≡ none)
passes true r rest h = cc
passes false r rest h = (refl, h)

unnegated : (b : Bool) → not b ≡ false → b ≡ true
unnegated b h = ground arith

pub precheck-none :
    (ext : External) (settings : Settings) (request : TokenRequest)
    → precheck ext settings request ≡ none
    → (is_form_urlencoded request.content_type ≡ true)
      × (settings.client_credentials_enabled ≡ true)
      × (str_eq (text_or_empty request.grant_type) "client_credentials" ≡ true)
      × ((is_some (parse_basic_auth ext request.authorization) && form_has_credentials ext request)
          ≡ false)
unfolding precheck
precheck-none ext settings request h =
    let (form, h1) = passes _ _ _ h in
    let (given, h2) = passes _ _ _ h1 in
    let (enabled, h3) = passes _ _ _ h2 in
    let (asked, h4) = passes _ _ _ h3 in
    let (one_kind, h5) = passes _ _ _ h4 in
    (unnegated _ form, unnegated _ enabled, unnegated _ asked, one_kind)

pub is_form_urlencoded-ok :
    (content_type : Option String)
    → is_form_urlencoded content_type ≡ true
    → (sent : String) × (content_type ≡ some sent)
      × (lower_eq (strip (before 0x3b sent)) "application/x-www-form-urlencoded" ≡ true)
unfolding is_form_urlencoded
is_form_urlencoded-ok none h = cc
is_form_urlencoded-ok (some sent) h = (sent, refl, (both_true _ _ h).1)

pub asked_for :
    (o : Option String) (s : String)
    → str_eq (text_or_empty o) s ≡ true
    → str_eq "" s ≡ false
    → o ≡ some s
asked_for none s h given = cc
asked_for (some t) s h given = ap some ((eq_iff t s).0 h)

pub verify_secret-ok :
    (bcrypt : Bcrypt) (secret hash : String)
    → verify_secret bcrypt secret hash ≡ true
    → bcrypt.checkpw secret hash ≡ some true
unfolding verify_secret
verify_secret-ok bcrypt secret hash h = go (bcrypt.checkpw secret hash) h
  where
    go : (o : Option Bool) → or_mismatch o ≡ true → o ≡ some true
    go none h = cc
    go (some b) h = ap some h

pub is_client_usable-ok :
    (now : Time) (account : ServiceAccount)
    → is_client_usable now account ≡ true
    → (account.is_active ≡ true)
      × (account.revoked_at ≡ none)
      × ((account.expires_at ≡ none) ⊎ ((at : Time) × (account.expires_at ≡ some at) × (now < at)))
unfolding is_client_usable
is_client_usable-ok now account h = go account.is_active account.revoked_at account.expires_at h
  where
    go :
        (active : Bool) (revoked_at expires_at : Option Time)
        → (if not active
            then false
            else if is_some revoked_at
            then false
            else elim expires_at [ none ↦ true | some at ↦ not (leb at now) ])
          ≡ true
        → (active ≡ true)
          × (revoked_at ≡ none)
          × ((expires_at ≡ none) ⊎ ((at : Time) × (expires_at ≡ some at) × (now < at)))
    go false revoked_at expires_at h = cc
    go true (some t) expires_at h = cc
    go true none none h = (refl, refl, inl refl)
    go true none (some at) h = (refl, refl, inr (at, refl, ground arith))
