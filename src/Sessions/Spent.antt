-- ===== src/Sessions/Spent.antt =====
-- What a refresh token can become once it has been used, by later calls of auth.py.
use accelerator_pack_auth_se.Prelude.{
  ℕ, String, List, [], ◌∷◌, ◌≡◌, refl, ap, ◌∙◌, Bool, true, false, not, ◌&&◌, none, some, Result,
  ok, arith, ◌==◌, ==_refl, eq_iff, length, any, select, if◌then◌else◌, ◌≤◌,
}
use accelerator_pack_auth_se.Table.{update_where, any-select, scalar_one_or_none}
use accelerator_pack_auth_se.Table.Laws.{
  length-select-update, length-select_mono, any_of_select, any-update, select-head,
  scalar_one_or_none-some,
}
use accelerator_pack_auth_se.Models.{Time}
use accelerator_pack_auth_se.Models.Rows.{RefreshToken}
use accelerator_pack_auth_se.Sessions.{
  Sessions, has_hash, close, is_valid_at, store_refresh_token, validate_refresh_token,
  revoke_user_tokens, revoke_token, enforce_session_limit,
}

-- The calls that the handlers make on the table.
pub data Call : Type 0 where
  store : ℕ → String → Time → Call
  enforce : ℕ → Call
  revoke_user : ℕ → Call
  revoke_one : RefreshToken → Call

module _ (sha256 : String → String) (limit expire_days : ℕ) where
  unfoldable pub step : Call → Sessions → Sessions
  step (store user_id token now) t = (store_refresh_token sha256 expire_days user_id token now t).1
  step (enforce user_id) t = (enforce_session_limit limit user_id t).1
  step (revoke_user user_id) t = (revoke_user_tokens user_id t).1
  step (revoke_one stored) t = (revoke_token stored t).1

  unfoldable pub run : Sessions → List Call → Sessions
  run t [] = t
  run t (c ∷ cs) = run (step c t) cs

abbrev live : String → RefreshToken → Bool
live hash t = has_hash hash t && not t.revoked

-- The hash is in the table, and every row that has it is revoked.
pub record IsSpent (hash : String) (t : Sessions) : Type 0 where
  pub known : any (has_hash hash) t.rows ≡ true
  pub dead : any (live hash) t.rows ≡ false

any-close :
    (hash : String) (p : RefreshToken → Bool) (xs : List RefreshToken)
    → any (live hash) xs ≡ false
    → any (live hash) (update_where p close xs) ≡ false
unfolding any update_where
any-close hash p [] h = refl
any-close hash p (x ∷ xs) h = ground (arith, any-close hash p xs)

close-IsSpent :
    (hash : String) (p : RefreshToken → Bool) (t : Sessions)
    → IsSpent hash t
    → IsSpent hash (record t { rows = update_where p close t.rows })
close-IsSpent hash p t v = record {
  known = any-update (has_hash hash) p close t.rows (λ x. refl) ∙ v.known;
  dead = any-close hash p t.rows v.dead;
}

abbrev pick : Bool → Sessions → Sessions → Result (Unit {0}) × Sessions
pick b t u = if b then (ok tt, t) else (ok tt, u)

either-IsSpent :
    (hash : String) (b : Bool) (t u : Sessions)
    → IsSpent hash t
    → IsSpent hash u
    → IsSpent hash (pick b t u).1
either-IsSpent hash true t u ht hu = ht
either-IsSpent hash false t u ht hu = hu

-- The column `token_hash` is unique.
abbrev pub IsUnique : Sessions → Type 0
IsUnique t = (hash : String) → length (select (has_hash hash) t.rows) ≤ 1

either-IsUnique : (b : Bool) (t u : Sessions) → IsUnique t → IsUnique u → IsUnique (pick b t u).1
either-IsUnique true t u ht hu = ht
either-IsUnique false t u ht hu = hu

none_live :
    (hash : String) (p : RefreshToken → Bool) (xs : List RefreshToken)
    → length (select (has_hash hash) xs) ≡ 0
    → any (live hash) (update_where p close xs) ≡ false
unfolding any update_where select
none_live hash p [] h = refl
none_live hash p (x ∷ xs) h = ground (arith, none_live hash p xs)

one_live :
    (hash : String) (valid : RefreshToken → Bool) (xs : List RefreshToken) (stored : RefreshToken)
    → ((x : RefreshToken) → valid x ≡ true → has_hash hash x ≡ true)
    → length (select (has_hash hash) xs) ≤ 1
    → select valid xs ≡ stored ∷ []
    → any (live hash) (update_where (λ r. r.id == stored.id) close xs) ≡ false
unfolding any update_where select
one_live hash valid [] stored sub unique row = cc
one_live hash valid (x ∷ xs) stored sub unique row = ground (
  arith,
  ==_refl stored.id,
  sub x,
  one_live hash valid xs stored sub,
  none_live hash (λ r. r.id == stored.id) xs,
  length-select_mono valid (has_hash hash) xs sub,
)

module _ (sha256 : String → String) (limit expire_days : ℕ) where
  step-IsSpent :
      (hash : String) (c : Call) (t : Sessions)
      → IsSpent hash t
      → IsSpent hash (step sha256 limit expire_days c t)
  unfolding step store_refresh_token enforce_session_limit revoke_user_tokens revoke_token any
  step-IsSpent hash (store user_id token now) t v = ground (arith, eq_iff (sha256 token) hash)
  step-IsSpent hash (enforce user_id) t v = either-IsSpent hash _ _ t (close-IsSpent hash _ t v) v
  step-IsSpent hash (revoke_user user_id) t v = close-IsSpent hash _ t v
  step-IsSpent hash (revoke_one stored) t v = close-IsSpent hash _ t v

  none_valid :
      (token : String) (later : Time) (xs : List RefreshToken)
      → any (live (sha256 token)) xs ≡ false
      → select (is_valid_at sha256 later token) xs ≡ []
  unfolding any select
  none_valid token later [] h = refl
  none_valid token later (x ∷ xs) h = ground (arith, none_valid token later xs)

  run-IsSpent :
      (hash : String) (cs : List Call) (t : Sessions)
      → IsSpent hash t
      → IsSpent hash (run sha256 limit expire_days t cs)
  unfolding run
  run-IsSpent hash [] t v = v
  run-IsSpent hash (c ∷ cs) t v =
      run-IsSpent hash cs (step sha256 limit expire_days c t) (step-IsSpent hash c t v)

  used-IsSpent :
      (token : String) (now : Time) (t : Sessions) (stored : RefreshToken)
      → IsUnique t
      → (validate_refresh_token sha256 token now t).0 ≡ ok (some stored)
      → IsSpent (sha256 token) (revoke_token stored t).1
  unfolding validate_refresh_token revoke_token
  used-IsSpent token now t stored unique found =
      let valid = is_valid_at sha256 now token in
      let row = scalar_one_or_none-some (select valid t.rows) stored found in
      let hash = sha256 token in
      record {
        known =
            any-update (has_hash hash) (λ r. r.id == stored.id) close t.rows (λ x. refl)
            ∙ any_of_select valid (has_hash hash) t.rows stored [] row
                (ground (arith, select-head valid t.rows stored [] row));
        dead = one_live hash valid t.rows stored (λ x h. ground arith) (unique hash) row;
      }

  spent-none :
      (token : String) (later : Time) (t : Sessions)
      → IsSpent (sha256 token) t
      → (validate_refresh_token sha256 token later t).0 ≡ ok none
  unfolding validate_refresh_token
  spent-none token later t v = ap scalar_one_or_none (none_valid token later t.rows v.dead)

  -- A token that was validated and revoked, as the refresh handler does, is never validated again,
  -- whatever is stored, limited or revoked afterwards and whatever the time.
  pub validate_refresh_token-once :
      (token : String) (now later : Time) (t : Sessions) (stored : RefreshToken) (cs : List Call)
      → IsUnique t
      → (validate_refresh_token sha256 token now t).0 ≡ ok (some stored)
      → (validate_refresh_token sha256 token later
          (run sha256 limit expire_days (revoke_token stored t).1 cs)).0
        ≡ ok none
  validate_refresh_token-once token now later t stored cs unique found =
      spent-none token later _
        (run-IsSpent (sha256 token) cs _ (used-IsSpent token now t stored unique found))

  close-IsUnique :
      (p : RefreshToken → Bool) (t : Sessions)
      → IsUnique t
      → IsUnique (record t { rows = update_where p close t.rows })
  close-IsUnique p t u hash =
      omega (arith, length-select-update (has_hash hash) p close t.rows (λ x. refl), u hash)

  step-IsUnique :
      (c : Call) (t : Sessions) → IsUnique t → IsUnique (step sha256 limit expire_days c t)
  unfolding step store_refresh_token enforce_session_limit revoke_user_tokens revoke_token select
  step-IsUnique (store user_id token now) t u =
      λ hash. ground (arith, u hash, eq_iff (sha256 token) hash, any-select (has_hash hash) t.rows)
  step-IsUnique (enforce user_id) t u = either-IsUnique _ _ t (close-IsUnique _ t u) u
  step-IsUnique (revoke_user user_id) t u = close-IsUnique _ t u
  step-IsUnique (revoke_one stored) t u = close-IsUnique _ t u

  -- No history of calls puts two tokens with one hash into the table.
  pub run-IsUnique :
      (cs : List Call) (t : Sessions) → IsUnique t → IsUnique (run sha256 limit expire_days t cs)
  unfolding run
  run-IsUnique [] t u = u
  run-IsUnique (c ∷ cs) t u =
      run-IsUnique cs (step sha256 limit expire_days c t) (step-IsUnique c t u)
