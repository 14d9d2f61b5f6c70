-- ===== src/Sso/Tests.antt =====
-- Witnesses for the theorems on single sign-on.
use accelerator_pack_auth_se.Prelude.{
  String, [], ◌∷◌, ◌≡◌, ◌≤◌, refl, none, some, ok, false, arith, select, any, str_eq, ◌==◌, ◌+◌,
  ◌&&◌, Option, Bool,
}
use accelerator_pack_auth_se.Samples.{now, alice, boss, db, admin_db}
use accelerator_pack_auth_se.Table.{order_desc}
use accelerator_pack_auth_se.Values.{Dict, text, list, get, get_or, find, has_entry, add_missing}
use accelerator_pack_auth_se.StrMethods.{has_scheme, has_char, lower_eq, before}
use accelerator_pack_auth_se.Models.Database.{Database}
use accelerator_pack_auth_se.Models.Federation.{ClaimRoleMapping}
use accelerator_pack_auth_se.Accounts.{find_email}
use accelerator_pack_auth_se.Queries.{one_where}
use accelerator_pack_auth_se.Sso.Discovery.{
  object, discover_oidc_metadata, cached, fetch_metadata, read_metadata, resolve_oidc_endpoints,
  resolved, check_endpoints, check_endpoint, require_https,
}
use accelerator_pack_auth_se.Sso.Discovery.Https.{IsHttps, resolve_oidc_endpoints-IsHttps}
use accelerator_pack_auth_se.Sso.Exchange.{
  Remote, IdTokens, Caches, exchange_oidc_code, claims_of, fetch_jwks, cached_keys, get_jwks,
  verify_id_token_with_jwks, key_for, userinfo_claims, client_credentials_token,
}
use accelerator_pack_auth_se.Sso.Exchange.Verified.{IsExchanged, exchange_oidc_code-IsExchanged}
use accelerator_pack_auth_se.Sso.States.{States, FreshState, minted, store_sso_state}
use accelerator_pack_auth_se.Sso.States.Live.{
  stores, consumes, IsUnique, perform, view, issued, consumed,
}
use accelerator_pack_auth_se.Sso.States.Histories.{
  History, run, replay, uses, mints, present, run_refines, uses-le-mints, minted-consumed,
}
use accelerator_pack_auth_se.Sso.Provisioning.{jit_provision_user, find_or_create, link_user}
use accelerator_pack_auth_se.Sso.Provisioning.Linked.{jit_provision_user-again}
use accelerator_pack_auth_se.Sso.Mappings.{apply_claim_mappings, provider_mappings}
use accelerator_pack_auth_se.Sso.Mappings.Held.{IsKeyed, Gains}
use accelerator_pack_auth_se.Sso.Provisioning.Made.{AreKeyed}
use accelerator_pack_auth_se.Sso.Mappings.Assigned.{
  AreWellFormed, matches_claims, apply_claim_mappings-gained,
}

abbrev fresh : FreshState
fresh = record { state = "s1"; nonce = "n1" }

abbrev states : States
states = record { rows = []; next_id = 1 }

abbrev calls : History
calls = (now, stores fresh 1 "https://app") ∷ (now, consumes "s1" 1) ∷ (now, consumes "s1" 1) ∷ []

no_states : IsUnique states
unfolding select
no_states s = omega arith

run_refines_example :
    IsUnique (run calls states).1
    × ((run calls states).0 ≡ (replay calls (view states)).0)
    × (view (run calls states).1 ≡ (replay calls (view states)).1)
run_refines_example = run_refines calls states no_states

uses-le-mints_example :
    uses "s1" calls states ≤ mints "s1" calls states + present (view states "s1")
uses-le-mints_example = uses-le-mints "s1" calls states no_states

abbrev others : History
others = (now, stores (record { state = "s2"; nonce = "n2" }) 1 "https://other") ∷ []

minted-consumed_example :
    (perform now
      (consumes "s1" 1)
      (run others (perform now (stores fresh 1 "https://app") states).1).1).0
    ≡ ok (consumed (minted fresh 1 "https://app" now))
unfolding store_sso_state any
minted-consumed_example =
    minted-consumed fresh 1 "https://app" now now others states (issued ("s1", "n1")) no_states refl
      refl (omega arith)

keyed : AreKeyed db
unfolding select
keyed = (λ id. ground arith, refl)

first_login :
    (jit_provision_user 1 "x1" (text "alice@example.com") (text "Alice") none now db).0
    ≡ ok (alice, false)
unfolding jit_provision_user one_where select link_user find_or_create find_email
first_login = refl

jit_provision_user-again_example :
    (jit_provision_user 1 "x1"
      (text "new@example.com")
      (text "A")
      none
      now
      (jit_provision_user 1 "x1" (text "alice@example.com") (text "Alice") none now db).1).0
    ≡ ok (alice, false)
jit_provision_user-again_example =
    jit_provision_user-again 1 "x1" (text "alice@example.com") (text "Alice") none now
      (text "new@example.com") (text "A") none now db alice false keyed first_login

abbrev mapping : ClaimRoleMapping
mapping = record {
  id = 1;
  provider_id = 1;
  claim_key = "groups";
  claim_value_pattern = "editors";
  role_id = 1;
  priority = 0;
  is_regex = false;
}

abbrev mapped_db : Database
mapped_db = record admin_db { claim_role_mappings = record { rows = mapping ∷ []; next_id = 2 } }

abbrev claims : Dict
claims = ("groups", list ("staff" ∷ "editors" ∷ []) "[…]") ∷ []

abbrev re_search : String → String → Option Bool
re_search pattern s = some (str_eq pattern s)

mapped-IsKeyed : IsKeyed 1 mapped_db
unfolding select
mapped-IsKeyed = (λ r. omega arith, λ r. ground arith)

formed : AreWellFormed re_search (provider_mappings 1 mapped_db)
unfolding select order_desc
formed = (λ s. refl, tt)

apply_claim_mappings-gained_example :
    Gains 1
      (λ r.
        any
          (λ m. m.provider_id == 1 && (m.role_id == r && matches_claims re_search claims m))
          mapped_db.claim_role_mappings.rows)
      mapped_db
      (apply_claim_mappings re_search 1 boss claims now mapped_db)
apply_claim_mappings-gained_example =
    apply_claim_mappings-gained re_search 1 boss claims now mapped_db formed mapped-IsKeyed

abbrev config : Dict
config = ("issuer", text "https://idp") ∷ ("jwks_url", text "https://idp/keys") ∷ []

abbrev discovery : Dict
discovery =
    ("issuer", text "https://idp")
    ∷ ("jwks_uri", text "http://other")
    ∷ ("token_endpoint", text "HTTPS://idp/token")
    ∷ []

checked : resolve_oidc_endpoints config discovery ≡ ok (resolved config discovery)
unfolding resolve_oidc_endpoints check_endpoints check_endpoint resolved get require_https
    has_scheme has_char lower_eq before
checked = refl

resolve_oidc_endpoints-IsHttps_example :
    IsHttps (resolved config discovery).token_url
    × IsHttps (resolved config discovery).userinfo_url
    × IsHttps (resolved config discovery).jwks_url
    × IsHttps (resolved config discovery).authorize_url
resolve_oidc_endpoints-IsHttps_example =
    resolve_oidc_endpoints-IsHttps config discovery (resolved config discovery) checked

abbrev document : Dict
document =
    ("issuer", text "https://idp")
    ∷ ("jwks_uri", text "https://idp/keys")
    ∷ ("token_endpoint", text "https://idp/token")
    ∷ []

abbrev remote : Remote
remote = record {
  fetch = λ url bearer. some (record { status_code = 200; body = object document });
  post = λ url form basic.
      some (record { status_code = 200; body = object (("id_token", text "t1") ∷ []) });
}

abbrev id_claims : Dict
id_claims = ("nonce", text "n1") ∷ ("sub", text "x1") ∷ []

abbrev id_tokens : IdTokens
id_tokens = record {
  key_set = λ body. some (("k1", "public") ∷ []);
  get_unverified_header = λ token. some (some "k1");
  decode = λ token signing_key algs audience issuer. some id_claims;
}

abbrev caches : Caches
caches = record { discovery_cache = []; jwks_cache = []; cc_token_cache = [] }

exchanged :
    (exchange_oidc_code (λ s. s) id_tokens remote now config "code" "https://app" "n1" caches).0
    ≡ ok id_claims
unfolding exchange_oidc_code get_or find discover_oidc_metadata cached fetch_metadata read_metadata
    has_entry resolve_oidc_endpoints check_endpoints check_endpoint resolved get require_https
    has_scheme has_char lower_eq before claims_of fetch_jwks cached_keys get_jwks
    verify_id_token_with_jwks key_for userinfo_claims add_missing client_credentials_token
exchanged = refl

exchange_oidc_code-IsExchanged_example :
    IsExchanged (λ s. s) id_tokens remote now config "n1" "code" "https://app" id_claims caches
exchange_oidc_code-IsExchanged_example =
    exchange_oidc_code-IsExchanged (λ s. s) id_tokens remote now config "n1" "code" "https://app"
      id_claims caches exchanged
