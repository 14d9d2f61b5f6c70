-- ===== src/Sessions.antt =====
-- The refresh tokens of auth.py, over their table: storing, validating, revoking, and the limit on
-- concurrent sessions. `sha256` is `hash_refresh_token`; the value of a new token comes from outside.
pub mod Limit
pub mod Spent
mod Tests
use accelerator_pack_auth_se.Prelude.{
  ℕ, zero, suc, ◌+◌, ◌-◌, String, List, [], ◌∷◌, Bool, true, false, not, ◌&&◌, Option, none, some,
  Result, ok, err, integrity_error, ltb, leb, ◌==◌, str_eq, length, drop, any, select,
  if◌then◌else◌,
}
use accelerator_pack_auth_se.Exec.{Exec, pure, modify, continue, ◌>>=◌, ◌>>◌}
use accelerator_pack_auth_se.Table.{Table, insert_row, update_where, scalar_one_or_none, order_desc}
use accelerator_pack_auth_se.Models.{Time, days}
use accelerator_pack_auth_se.Models.Rows.{RefreshToken}

abbrev pub Sessions : Type 0
Sessions = Table RefreshToken

abbrev pub has_hash : String → RefreshToken → Bool
has_hash hash t = str_eq t.token_hash hash

-- `user_id == … and revoked == 0`, whatever the expiry.
abbrev pub is_open : ℕ → RefreshToken → Bool
is_open user_id t = t.user_id == user_id && not t.revoked

abbrev pub close : RefreshToken → RefreshToken
close t = record t { revoked = true }

module _ (sha256 : String → String) where
  abbrev pub new_session : (refresh_token_expire_days : ℕ) → ℕ → String → Time → ℕ → RefreshToken
  new_session refresh_token_expire_days user_id token now id = record {
    id = id;
    user_id = user_id;
    token_hash = sha256 token;
    expires_at = now + days refresh_token_expire_days;
    revoked = false;
    created_at = now;
  }

  -- The column `token_hash` is unique.
  unfoldable pub store_refresh_token : ℕ → ℕ → String → Time → Exec Sessions Unit
  store_refresh_token refresh_token_expire_days user_id token now t =
      if any (has_hash (sha256 token)) t.rows
      then (err integrity_error, t)
      else (ok tt, insert_row (new_session refresh_token_expire_days user_id token now) t)

  abbrev pub is_valid_at : Time → String → RefreshToken → Bool
  is_valid_at now token t = has_hash (sha256 token) t && not t.revoked && ltb now t.expires_at

  unfoldable pub validate_refresh_token : String → Time → Exec Sessions (Option RefreshToken)
  validate_refresh_token token now t =
      (scalar_one_or_none (select (is_valid_at now token) t.rows), t)

unfoldable pub revoke_user_tokens : ℕ → Exec Sessions Unit
revoke_user_tokens user_id =
    modify λ t. record t { rows = update_where (is_open user_id) close t.rows }

-- `stored.revoked = True` in the refresh handler: the row with the key of the loaded object.
unfoldable pub revoke_token : RefreshToken → Exec Sessions Unit
revoke_token stored =
    modify λ t. record t { rows = update_where (λ r. r.id == stored.id) close t.rows }

-- The slice `tokens[limit - 1:]`: from the end, where the start is -1.
abbrev pub slice_from : ℕ → List RefreshToken → List RefreshToken
slice_from zero tokens = drop (length tokens - 1) tokens
slice_from (suc n) tokens = drop n tokens

-- One of the rows has the key of the row.
abbrev pub is_among : List RefreshToken → RefreshToken → Bool
is_among tokens t = any (λ r. r.id == t.id) tokens

unfoldable pub enforce_session_limit : (max_concurrent_sessions : ℕ) → ℕ → Exec Sessions Unit
enforce_session_limit limit user_id t =
    let active_tokens = order_desc (λ r. r.created_at) (select (is_open user_id) t.rows) in
    if leb limit (length active_tokens)
    then (
      ok tt,
      record t { rows = update_where (is_among (slice_from limit active_tokens)) close t.rows },
    )
    else (ok tt, t)
