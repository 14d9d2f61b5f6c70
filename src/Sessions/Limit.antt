-- ===== src/Sessions/Limit.antt =====
-- The limit on concurrent sessions.
use accelerator_pack_auth_se.Prelude.{
  ℕ, zero, suc, ◌+◌, ◌≤◌, ◌<◌, String, List, [], ◌∷◌, ◌≡◌, refl, ap, Bool, true, false, not, some,
  ok, arith, ◌==◌, ==_refl, length, drop, any, select, if◌then◌else◌,
}
use accelerator_pack_auth_se.Table.{update_where, order_desc}
use accelerator_pack_auth_se.Table.Laws.{
  length-select-update-le, select-head, any_of_single, scalar_one_or_none-some, select-update_out,
  length-select-order_desc, length-order_desc, length-select-drop, length-select-lt,
}
use accelerator_pack_auth_se.Models.{Time}
use accelerator_pack_auth_se.Models.Rows.{RefreshToken}
use accelerator_pack_auth_se.Sessions.{
  Sessions, is_open, close, is_among, slice_from, enforce_session_limit, store_refresh_token,
  revoke_user_tokens, revoke_token, is_valid_at, validate_refresh_token,
}

-- The number of a user's tokens that are not revoked.
abbrev pub open_sessions : ℕ → Sessions → ℕ
open_sessions user_id t = length (select (is_open user_id) t.rows)

select-among :
    (r : RefreshToken → Bool) (xs : List RefreshToken)
    → ((x : RefreshToken) → is_among xs x ≡ true → r x ≡ false)
    → select r xs ≡ []
unfolding select any
select-among r [] h = refl
select-among r (x ∷ xs) h =
    ground (arith, h x, ==_refl x.id, select-among r xs (λ y m. h y (ground arith)))

kept-le :
    (n : ℕ) (xs : List RefreshToken) → length (select (λ x. not (is_among (drop n xs) x)) xs) ≤ n
kept-le n xs = omega (
  arith,
  length-select-drop (λ x. not (is_among (drop n xs) x)) n xs,
  ap length (select-among (λ x. not (is_among (drop n xs) x)) (drop n xs) (λ x m. ground arith)),
)

-- With a limit of at least one, a user is left with fewer open sessions than the limit.
pub enforce_session_limit-lt :
    (limit user_id : ℕ) (t : Sessions)
    → 0 < limit
    → open_sessions user_id (enforce_session_limit limit user_id t).1 < limit
unfolding enforce_session_limit
enforce_session_limit-lt zero user_id t h = absurd (omega arith)
enforce_session_limit-lt (suc n) user_id t h =
    let mine = select (is_open user_id) t.rows in
    let active = order_desc (λ r. r.created_at) mine in
    let kept = λ (x : RefreshToken). not (is_among (drop n active) x) in
    ground (
      arith,
      length-order_desc (λ (r : RefreshToken). r.created_at) mine,
      ap length (
          select-update_out (is_open user_id) (is_among (drop n active)) close t.rows
            (λ x. ground arith)),
      length-select-order_desc kept (λ (r : RefreshToken). r.created_at) mine,
      kept-le n active,
    )

store-le :
    (sha256 : String → String) (expire_days user_id v : ℕ) (token : String) (now : Time)
    (t : Sessions)
    → open_sessions user_id (store_refresh_token sha256 expire_days v token now t).1
      ≤ open_sessions user_id t + (if v == user_id then 1 else 0)
unfolding store_refresh_token select
store-le sha256 expire_days user_id v token now t = ground arith

close-le :
    (p : RefreshToken → Bool) (user_id : ℕ) (t : Sessions)
    → open_sessions user_id (record t { rows = update_where p close t.rows })
      ≤ open_sessions user_id t
close-le p user_id t =
    length-select-update-le (is_open user_id) p close t.rows (λ x h. ground arith)

enforce-le :
    (limit user_id v : ℕ) (t : Sessions)
    → open_sessions user_id (enforce_session_limit limit v t).1 ≤ open_sessions user_id t
unfolding enforce_session_limit
enforce-le limit user_id v t = ground (
  arith,
  close-le
      (is_among (slice_from limit (order_desc (λ r. r.created_at) (select (is_open v) t.rows))))
      user_id t,
)

-- No user has more open sessions than the limit.
abbrev pub IsBounded : ℕ → Sessions → Type 0
IsBounded limit t = (user_id : ℕ) → open_sessions user_id t ≤ limit

-- With a limit of at least one, a login makes room first, so it keeps every user within the limit.
pub login-IsBounded :
    (sha256 : String → String) (limit expire_days v : ℕ) (token : String) (now : Time)
    (t : Sessions)
    → 0 < limit
    → IsBounded limit t
    → IsBounded limit
        (store_refresh_token sha256 expire_days v token now (enforce_session_limit limit v t).1).1
login-IsBounded sha256 limit expire_days v token now t pos h user_id =
    let t' = (enforce_session_limit limit v t).1 in
    ground (
      arith,
      h user_id,
      enforce-le limit user_id v t,
      enforce_session_limit-lt limit v t pos,
      store-le sha256 expire_days user_id v token now t',
    )

revoke_token-lt :
    (sha256 : String → String) (token : String) (now : Time) (t : Sessions) (stored : RefreshToken)
    → (validate_refresh_token sha256 token now t).0 ≡ ok (some stored)
    → open_sessions stored.user_id (revoke_token stored t).1 < open_sessions stored.user_id t
unfolding validate_refresh_token revoke_token
revoke_token-lt sha256 token now t stored found =
    let user_id = stored.user_id in
    let row = scalar_one_or_none-some (select (is_valid_at sha256 now token) t.rows) stored found in
    let valid = select-head (is_valid_at sha256 now token) t.rows stored [] row in
    let opened : is_open user_id stored ≡ true = ground (arith, ==_refl user_id) in
    ground (
      arith,
      ap length (
          select-update_out (is_open user_id) (λ r. r.id == stored.id) close t.rows
            (λ x. ground arith)),
      length-select-lt (λ (r : RefreshToken). r.id == stored.id) (select (is_open user_id) t.rows)
          (any_of_single (is_open user_id) (is_valid_at sha256 now token) (λ r. r.id == stored.id)
            t.rows stored row opened (==_refl stored.id)),
    )

-- A refresh closes the session of the token that was validated before it opens the next one, so it
-- keeps every user within the limit.
pub refresh-IsBounded :
    (sha256 : String → String) (limit expire_days : ℕ) (token next : String) (now : Time)
    (t : Sessions) (stored : RefreshToken)
    → (validate_refresh_token sha256 token now t).0 ≡ ok (some stored)
    → IsBounded limit t
    → IsBounded limit
        (store_refresh_token sha256 expire_days stored.user_id next now (revoke_token stored t).1).1
unfolding revoke_token
refresh-IsBounded sha256 limit expire_days token next now t stored found h user_id =
    let t' = (revoke_token stored t).1 in
    ground (
      arith,
      h user_id,
      h stored.user_id,
      revoke_token-lt sha256 token now t stored found,
      close-le (λ r. r.id == stored.id) user_id t,
      store-le sha256 expire_days user_id stored.user_id next now t',
    )

close_all :
    (v user_id : ℕ) (xs : List RefreshToken)
    → length (select (is_open user_id) (update_where (is_open v) close xs))
      ≡ (if v == user_id then 0 else length (select (is_open user_id) xs))
unfolding select update_where
close_all v user_id [] = ground arith
close_all v user_id (x ∷ xs) = ground (arith, close_all v user_id xs)

-- Logging out closes every session of the user, and no session of anyone else.
pub revoke_user_tokens_lem :
    (v user_id : ℕ) (t : Sessions)
    → open_sessions user_id (revoke_user_tokens v t).1
      ≡ (if v == user_id then 0 else open_sessions user_id t)
unfolding revoke_user_tokens
revoke_user_tokens_lem v user_id t = close_all v user_id t.rows
