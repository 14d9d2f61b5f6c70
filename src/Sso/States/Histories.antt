-- ===== src/Sso/States/Histories.antt =====
-- Any sequence of logins that begin and return, with their instants.
use accelerator_pack_auth_se.Prelude.{
  ℕ, ◌+◌, ◌≤◌, ◌<◌, String, List, [], ◌∷◌, ◌≡◌, refl, sym, ap, subst, ◌∙◌, Bool, false, Option,
  none, some, Result, ok, err, arith, leb, ◌==◌, ==_refl, str_eq, eq_iff, eq_refl, any, Bool-cases,
  inl, inr, if◌then◌else◌,
}
use accelerator_pack_auth_se.Models.{Time}
use accelerator_pack_auth_se.Models.Federation.{SsoState}
use accelerator_pack_auth_se.Sso.States.{States, FreshState, minted, sso_state_ttl}
use accelerator_pack_auth_se.Sso.States.Live.{
  StateCall, stores, consumes, Answer, consumed, perform, Live, specify, consume_live, store_live,
  view, IsUnique, perform-Refines,
}

abbrev pub History : Type 0
History = List (Time × StateCall)

-- The answers of the calls, and the table afterwards.
unfoldable pub run : History → States → List (Result Answer) × States
run [] t = ([], t)
run ((now, call) ∷ calls) t =
    let (answer, t') = perform now call t in
    let (answers, end) = run calls t' in (answer ∷ answers, end)

-- The same calls on a partial function.
unfoldable pub replay : History → Live → List (Result Answer) × Live
replay [] live = ([], live)
replay ((now, call) ∷ calls) live =
    let (answer, live') = specify now call live in
    let (answers, end) = replay calls live' in (answer ∷ answers, end)

-- Over any history the table answers as the partial function does that it stands for, and stands for
-- what the function has become; no state is there twice before or after.
pub run_refines :
    (calls : History) (t : States)
    → IsUnique t
    → IsUnique (run calls t).1
      × ((run calls t).0 ≡ (replay calls (view t)).0)
      × (view (run calls t).1 ≡ (replay calls (view t)).1)
unfolding run replay
run_refines [] t unique = (unique, refl, refl)
run_refines ((now, call) ∷ calls) t unique =
    let (unique', answer, seen) = perform-Refines now call t unique in
    let (unique'', answers, end) = run_refines calls (perform now call t).1 unique' in
    let next = ap (replay calls) seen in
    (
      unique'',
      cons_eq answer (answers ∙ ap (λ (x : List (Result Answer) × Live). x.0) next),
      end ∙ ap (λ (x : List (Result Answer) × Live). x.1) next,
    )
  where
    cons_eq :
        {a b : Result Answer} {xs ys : List (Result Answer)} → a ≡ b → xs ≡ ys → a ∷ xs ≡ b ∷ ys
    cons_eq h k = cc

abbrev is_ok : Result Answer → ℕ
is_ok (ok answer) = 1
is_ok (err e) = 0

-- Whether a call mints the state, or consumes it.
abbrev pub mints_now : String → StateCall → Result Answer → ℕ
mints_now s (stores fresh provider_id redirect_uri) answer =
    if str_eq fresh.state s then is_ok answer else 0
mints_now s (consumes state provider_id) answer = 0

abbrev pub uses_now : String → StateCall → Result Answer → ℕ
uses_now s (stores fresh provider_id redirect_uri) answer = 0
uses_now s (consumes state provider_id) answer = if str_eq state s then is_ok answer else 0

-- How often a history mints the state, and how often it consumes it.
unfoldable pub mints : String → History → States → ℕ
mints s [] t = 0
mints s ((now, call) ∷ calls) t =
    mints_now s call (perform now call t).0 + mints s calls (perform now call t).1

unfoldable pub uses : String → History → States → ℕ
uses s [] t = 0
uses s ((now, call) ∷ calls) t =
    uses_now s call (perform now call t).0 + uses s calls (perform now call t).1

abbrev pub present : Option SsoState → ℕ
present none = 0
present (some row) = 1

consume_step :
    (s state : String) (provider_id : ℕ) (now : Time) (live : Live) (found : Option SsoState)
    → live state ≡ found
    → uses_now s (consumes state provider_id) (consume_live state provider_id now live found).0
        + present ((consume_live state provider_id now live found).1 s)
      ≤ present (live s)
consume_step s state provider_id now live none h = ground arith
consume_step s state provider_id now live (some row) h =
    elim (Bool-cases (row.provider_id == provider_id)) [
      | inr other ↦ rw other (ground arith)
      | inl own ↦ rw own (elim (Bool-cases (str_eq state s)) [
        | inl same ↦
            let here = subst (λ z. live z ≡ some row) ((eq_iff state s).0 same) h in
            rw (same, here) (ground arith)
        | inr apart ↦ rw apart (omega arith)
      ])
    ]

store_step :
    (s : String) (fresh : FreshState) (row : SsoState) (provider_id : ℕ) (redirect_uri : String)
    (live : Live) (found : Option SsoState)
    → live fresh.state ≡ found
    → present ((store_live fresh row live found).1 s)
      ≤ mints_now s (stores fresh provider_id redirect_uri) (store_live fresh row live found).0
        + present (live s)
store_step s fresh row provider_id redirect_uri live none h =
    elim (Bool-cases (str_eq fresh.state s)) [
      | inl same ↦ rw same (omega arith)
      | inr apart ↦ rw apart (omega arith)
    ]
store_step s fresh row provider_id redirect_uri live (some old) h = omega arith

-- Each call pays for a use with a state that is there, which only a minting call adds.
abbrev Pays : String → StateCall → Live → Result Answer × Live → Type 0
Pays s call live (answer, live') =
    uses_now s call answer + present (live' s) ≤ mints_now s call answer + present (live s)

specify-Pays :
    (s : String) (now : Time) (call : StateCall) (live : Live)
    → Pays s call live (specify now call live)
specify-Pays s now (stores fresh provider_id redirect_uri) live =
    let step =
      store_step s fresh (minted fresh provider_id redirect_uri now) provider_id redirect_uri live
        (live fresh.state) refl in
    omega (arith, step)
specify-Pays s now (consumes state provider_id) live =
    let step = consume_step s state provider_id now live (live state) refl in omega (arith, step)

call_step :
    (s : String) (now : Time) (call : StateCall) (t : States)
    → IsUnique t
    → uses_now s call (perform now call t).0 + present (view (perform now call t).1 s)
      ≤ mints_now s call (perform now call t).0 + present (view t s)
call_step s now call t unique =
    let (unique', answer, seen) = perform-Refines now call t unique in
    subst (Pays s call (view t)) (λ i. (sym answer i, sym seen i))
      (specify-Pays s now call (view t))

-- Over any history a state is consumed at most as often as it was minted, counting one that was there
-- at the beginning: every mint is good for one callback.
pub uses-le-mints :
    (s : String) (calls : History) (t : States)
    → IsUnique t
    → uses s calls t ≤ mints s calls t + present (view t s)
unfolding uses mints
uses-le-mints s [] t unique = omega arith
uses-le-mints s ((now, call) ∷ calls) t unique =
    let step = call_step s now call t unique in
    let later =
      uses-le-mints s calls (perform now call t).1 (perform-Refines now call t unique).0 in
    omega (arith, step, later)

abbrev pub touches : String → StateCall → Bool
touches s (stores fresh provider_id redirect_uri) = str_eq fresh.state s
touches s (consumes state provider_id) = str_eq state s

specify_apart :
    (s : String) (now : Time) (call : StateCall) (live : Live)
    → touches s call ≡ false
    → (specify now call live).1 s ≡ live s
specify_apart s now (stores fresh provider_id redirect_uri) live h = by_found (live fresh.state)
  where
    by_found :
        (found : Option SsoState)
        → (store_live fresh (minted fresh provider_id redirect_uri now) live found).1 s ≡ live s
    by_found none = rw h refl
    by_found (some old) = refl
specify_apart s now (consumes state provider_id) live h = by_found (live state)
  where
    by_found :
        (found : Option SsoState) → (consume_live state provider_id now live found).1 s ≡ live s
    by_found none = refl
    by_found (some row) = elim (Bool-cases (row.provider_id == provider_id)) [
      | inl own ↦ rw (own, h) refl
      | inr other ↦ rw other refl
    ]

run_apart :
    (s : String) (calls : History) (t : States)
    → IsUnique t
    → any (λ c. touches s c.1) calls ≡ false
    → view (run calls t).1 s ≡ view t s
unfolding run any
run_apart s [] t unique h = refl
run_apart s ((now, call) ∷ calls) t unique h =
    let (unique', answer, seen) = perform-Refines now call t unique in
    run_apart s calls (perform now call t).1 unique' (ground arith)
    ∙ ap (λ (live : Live). live s) seen
    ∙ specify_apart s now call (view t) (ground arith)

-- A login that begins can be completed: for the ten minutes after a state has been minted, whatever
-- calls for other states are made in between, the callback of its provider gets back the redirect
-- address and the nonce that it was minted with.
pub minted-consumed :
    (fresh : FreshState) (provider_id : ℕ) (redirect_uri : String) (now later : Time)
    (calls : History) (t : States) (pair : Answer)
    → IsUnique t
    → (perform now (stores fresh provider_id redirect_uri) t).0 ≡ ok pair
    → any (λ c. touches fresh.state c.1) calls ≡ false
    → later < now + sso_state_ttl
    → (perform later
        (consumes fresh.state provider_id)
        (run calls (perform now (stores fresh provider_id redirect_uri) t).1).1).0
      ≡ ok (consumed (minted fresh provider_id redirect_uri now))
minted-consumed fresh provider_id redirect_uri now later calls t pair unique stored apart soon =
    let call = stores fresh provider_id redirect_uri in
    let row = minted fresh provider_id redirect_uri now in
    let t1 = (perform now call t).1 in
    let (unique1, answer, seen) = perform-Refines now call t unique in
    let (unique2, answers, end) = run_refines calls t1 unique1 in
    let (unique3, result, last) =
      perform-Refines later (consumes fresh.state provider_id) (run calls t1).1 unique2 in
    let there =
      run_apart fresh.state calls t1 unique1 apart
      ∙ ap (λ (live : Live). live fresh.state) seen
      ∙ put_there (view t fresh.state) (sym answer ∙ stored) in
    result
    ∙ ap (λ found. (consume_live fresh.state provider_id later (view (run calls t1).1) found).0)
        there
    ∙ alive (view (run calls t1).1)
  where
    put_there :
        (found : Option SsoState)
        → (store_live fresh (minted fresh provider_id redirect_uri now) (view t) found).0 ≡ ok pair
        → (store_live fresh (minted fresh provider_id redirect_uri now) (view t) found).1
            fresh.state
          ≡ some (minted fresh provider_id redirect_uri now)
    put_there none h = rw (eq_refl fresh.state) refl
    put_there (some old) h = cc

    alive :
        (live : Live)
        → (consume_live fresh.state provider_id later live
            (some (minted fresh provider_id redirect_uri now))).0
          ≡ ok (consumed (minted fresh provider_id redirect_uri now))
    alive live =
        let fresh_enough : leb (now + sso_state_ttl) later ≡ false = ground arith in
        rw (==_refl provider_id, fresh_enough) refl
