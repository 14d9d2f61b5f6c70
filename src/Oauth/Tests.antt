-- ===== src/Oauth/Tests.antt =====
-- Witnesses for the theorems on the token endpoint.
use accelerator_pack_auth_se.Prelude.{[], ◌∷◌, ◌≡◌, refl, none, some, ok, select}
use accelerator_pack_auth_se.Samples.{ext, settings, now, robot, db, fresh_token}
use accelerator_pack_auth_se.Scopes.{deserialize_scopes, decoded_list, grant_scopes}
use accelerator_pack_auth_se.ScopeString.{parse_scope_string, split, is_space}
use accelerator_pack_auth_se.Clients.{
  get_client_by_client_id, update_last_used, is_client_usable, verify_secret, save,
}
use accelerator_pack_auth_se.Keys.{get_active_signing_key}
use accelerator_pack_auth_se.Audit.{log_audit}
use accelerator_pack_auth_se.Table.{order_desc}
use accelerator_pack_auth_se.Tokens.{create_client_access_token}
use accelerator_pack_auth_se.Oauth.{
  TokenRequest, Reply, token_reply, invalid_client_response, attempted_basic, oauth_token,
  authenticate, precheck, presented, is_form_urlencoded, parse_basic_auth, or_form, is_authentic,
  serve, answer,
}
use accelerator_pack_auth_se.Oauth.Issuing.{IsIssue, oauth_token-issued}
use accelerator_pack_auth_se.Oauth.Refusing.{oauth_token-invalid_client}

abbrev request : TokenRequest
request = record {
  content_type = some "application/x-www-form-urlencoded; charset=utf-8";
  authorization = none;
  grant_type = some "client_credentials";
  client_id = some "cli_1";
  client_secret = some "csk_1";
  scope = none;
  host = none;
}

abbrev wrong : TokenRequest
wrong = record request { client_secret = some "csk_2" }

abbrev reply : Reply
reply = token_reply ext settings "k1" ("*" ∷ [])

issued : (oauth_token ext settings fresh_token now request db).0 ≡ ok reply
unfolding oauth_token authenticate precheck presented is_form_urlencoded parse_basic_auth or_form
    get_client_by_client_id select serve is_authentic verify_secret is_client_usable answer
    deserialize_scopes decoded_list parse_scope_string split is_space grant_scopes
    create_client_access_token get_active_signing_key order_desc update_last_used save log_audit
issued = refl

oauth_token-issued_example : IsIssue ext settings fresh_token now request reply db
oauth_token-issued_example =
    oauth_token-issued ext settings fresh_token now request reply db issued refl

oauth_token-invalid_client_example :
    oauth_token ext settings fresh_token now wrong db
    ≡ (ok (invalid_client_response (attempted_basic wrong)), db)
unfolding precheck is_form_urlencoded parse_basic_auth presented or_form get_client_by_client_id
    select is_authentic verify_secret is_space
oauth_token-invalid_client_example =
    oauth_token-invalid_client ext settings fresh_token now wrong (some robot) db refl refl refl
