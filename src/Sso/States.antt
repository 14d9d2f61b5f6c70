-- ===== src/Sso/States.antt =====
-- `store_sso_state` and `consume_sso_state` of sso_service.py, over the table of states. `fresh` holds
-- the random values that are drawn.
pub mod Live
pub mod Histories
use accelerator_pack_auth_se.Prelude.{
  ℕ, ◌+◌, String, List, [], ◌∷◌, Bool, true, false, not, ◌||◌, Option, none, some, Result, ok, err,
  Error, http, integrity_error, leb, ◌==◌, str_eq, any, select, if◌then◌else◌,
}
use accelerator_pack_auth_se.Exec.{Exec, found_or, pure, raise, lift, modify, guard, ◌>>=◌, ◌>>◌}
use accelerator_pack_auth_se.Table.{Table, delete_where, scalar_one_or_none}
use accelerator_pack_auth_se.Models.{Time, minutes}
use accelerator_pack_auth_se.Models.Federation.{SsoState}

abbrev pub States : Type 0
States = Table SsoState

pub record FreshState : Type 0 where
  pub state : String
  pub nonce : String

abbrev pub sso_state_ttl : Time
sso_state_ttl = minutes 10

abbrev pub is_state : String → SsoState → Bool
is_state state row = str_eq row.state state

abbrev pub minted : FreshState → ℕ → String → Time → SsoState
minted fresh provider_id redirect_uri now = record {
  state = fresh.state;
  nonce = fresh.nonce;
  provider_id = provider_id;
  redirect_uri = redirect_uri;
  created_at = now;
  expires_at = now + sso_state_ttl;
}

-- The state is the primary key.
unfoldable pub store_sso_state : FreshState → ℕ → String → Time → Exec States (String × String)
store_sso_state fresh provider_id redirect_uri now t =
    if any (is_state fresh.state) t.rows then (err integrity_error, t) else (
      ok (fresh.state, fresh.nonce),
      record t { rows = minted fresh provider_id redirect_uri now ∷ t.rows },
    )

-- The detail of the answer is the object with the error `invalid_state` and this description.
abbrev pub invalid_state : String → Error
invalid_state description = http 400 description

abbrev pub delete_state : String → States → States
delete_state state t = record t { rows = delete_where (is_state state) t.rows }

unfoldable pub consume_row : String → ℕ → Time → SsoState → Exec States SsoState
consume_row state provider_id now row =
    if not (row.provider_id == provider_id)
    then raise (invalid_state "Unknown state")
    else if leb row.expires_at now
    then (modify (delete_state state) >> raise (invalid_state "State expired"))
    else (modify (delete_state state) >> pure row)

unfoldable pub consume_sso_state : String → ℕ → Time → Exec States SsoState
unfolding consume_row
consume_sso_state state provider_id now = do
  found ← λ t. (scalar_one_or_none (select (is_state state) t.rows), t)
  found_or (raise (invalid_state "Unknown state")) found (consume_row state provider_id now)
