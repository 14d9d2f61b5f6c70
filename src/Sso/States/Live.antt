-- ===== src/Sso/States/Live.antt =====
-- What the table of states promises: a partial function from states to logins under way, of which a
-- call looks up and changes one value.
use accelerator_pack_auth_se.Prelude.{
  ℕ, ◌≤◌, String, List, [], ◌∷◌, ◌≡◌, refl, ap, ◌∙◌, fun_ext, Bool, true, false, not, Option, none,
  some, Result, ok, err, integrity_error, arith, leb, ◌==◌, str_eq, eq_iff, length, head?, select,
  Bool-cases, inl, inr, if◌then◌else◌,
}
use accelerator_pack_auth_se.Exec.{Exec, ◌>>=◌, pure}
use accelerator_pack_auth_se.Table.{delete_where}
use accelerator_pack_auth_se.Table.Laws.{any_of_select, select-head}
use accelerator_pack_auth_se.Table.Any.{any_empty}
use accelerator_pack_auth_se.Models.{Time}
use accelerator_pack_auth_se.Models.Federation.{SsoState}
use accelerator_pack_auth_se.Sso.States.{
  States, FreshState, is_state, minted, store_sso_state, invalid_state, delete_state, consume_row,
  consume_sso_state,
}

-- The calls of the two handlers, and what they return.
pub data StateCall : Type 0 where
  stores : FreshState → ℕ → String → StateCall
  consumes : String → ℕ → StateCall

pub data Answer : Type 0 where
  issued : String × String → Answer
  consumed : SsoState → Answer

abbrev pub perform : Time → StateCall → Exec States Answer
perform now (stores fresh provider_id redirect_uri) =
    store_sso_state fresh provider_id redirect_uri now >>= λ pair. pure (issued pair)
perform now (consumes state provider_id) =
    consume_sso_state state provider_id now >>= λ row. pure (consumed row)

abbrev pub Live : Type 0
Live = String → Option SsoState

abbrev pub update : Live → String → Option SsoState → Live
update live state value s = if str_eq state s then value else live s

-- The same calls on a partial function.
abbrev pub consume_live : String → ℕ → Time → Live → Option SsoState → Result Answer × Live
consume_live state provider_id now live none = (err (invalid_state "Unknown state"), live)
consume_live state provider_id now live (some row) =
    if not (row.provider_id == provider_id) then (err (invalid_state "Unknown state"), live) else (
      (if leb row.expires_at now then err (invalid_state "State expired") else ok (consumed row)),
      update live state none,
    )

abbrev pub store_live : FreshState → SsoState → Live → Option SsoState → Result Answer × Live
store_live fresh row live none =
    (ok (issued (fresh.state, fresh.nonce)), update live fresh.state (some row))
store_live fresh row live (some old) = (err integrity_error, live)

abbrev pub specify : Time → StateCall → Live → Result Answer × Live
specify now (stores fresh provider_id redirect_uri) live =
    store_live fresh (minted fresh provider_id redirect_uri now) live (live fresh.state)
specify now (consumes state provider_id) live = consume_live state provider_id now live (live state)

-- The function that a table stands for.
abbrev pub view : States → Live
view t state = head? (select (is_state state) t.rows)

-- No state is there twice.
abbrev pub IsUnique : States → Type 0
IsUnique t = (state : String) → length (select (is_state state) t.rows) ≤ 1

select_deleted :
    (state s : String) (rows : List SsoState)
    → select (is_state s) (delete_where (is_state state) rows)
      ≡ (if str_eq state s then [] else select (is_state s) rows)
unfolding select delete_where
select_deleted state s [] = ground arith
select_deleted state s (row ∷ rows) =
    ground (
      arith,
      select_deleted state s rows,
      eq_iff state s,
      eq_iff row.state state,
      eq_iff row.state s,
    )

view-delete :
    (state : String) (t : States) → view (delete_state state t) ≡ update (view t) state none
view-delete state t = fun_ext λ s.
    ap head? (select_deleted state s t.rows) ∙ split (str_eq state s) (select (is_state s) t.rows)
  where
    split :
        (b : Bool) (rows : List SsoState)
        → head? (if b then [] else rows) ≡ (if b then none else head? rows)
    split true rows = refl
    split false rows = refl

delete-IsUnique : (state : String) (t : States) → IsUnique t → IsUnique (delete_state state t)
delete-IsUnique state t unique s = ground (arith, unique s, select_deleted state s t.rows)

-- Where a call leads from a table is where its promise leads from the function.
abbrev pub Refines : Result Answer × States → Result Answer × Live → Type 0
Refines (r, t) (r', live') = IsUnique t × (r ≡ r') × (view t ≡ live')

consume_row-Refines :
    (state : String) (provider_id : ℕ) (now : Time) (row : SsoState) (t : States)
    → IsUnique t
    → Refines
        ((consume_row state provider_id now row >>= λ row. pure (consumed row)) t)
        (consume_live state provider_id now (view t) (some row))
unfolding consume_row
consume_row-Refines state provider_id now row t unique =
    let gone = delete-IsUnique state t unique in
    elim (Bool-cases (row.provider_id == provider_id)) [
      | inl own ↦ elim (Bool-cases (leb row.expires_at now)) [
        | inl late ↦ rw (own, late) (gone, refl, view-delete state t)
        | inr alive ↦ rw (own, alive) (gone, refl, view-delete state t)
      ]
      | inr other ↦ rw other (unique, refl, refl)
    ]

consume-Refines :
    (state : String) (provider_id : ℕ) (now : Time) (t : States) (found : List SsoState)
    → IsUnique t
    → select (is_state state) t.rows ≡ found
    → Refines
        (perform now (consumes state provider_id) t)
        (consume_live state provider_id now (view t) (head? found))
unfolding consume_sso_state
consume-Refines state provider_id now t [] unique h = rw h (unique, refl, refl)
consume-Refines state provider_id now t (row ∷ []) unique h =
    rw h (consume_row-Refines state provider_id now row t unique)
consume-Refines state provider_id now t (row ∷ other ∷ rest) unique h =
    absurd (omega (arith, ap length h, unique state))

store-Refines :
    (fresh : FreshState) (provider_id : ℕ) (redirect_uri : String) (now : Time) (t : States)
    (found : List SsoState)
    → IsUnique t
    → select (is_state fresh.state) t.rows ≡ found
    → Refines
        (perform now (stores fresh provider_id redirect_uri) t)
        (store_live fresh (minted fresh provider_id redirect_uri now) (view t) (head? found))
unfolding store_sso_state select
store-Refines fresh provider_id redirect_uri now t [] unique h =
    rw (any_empty (is_state fresh.state) t.rows h) (
      λ s. ground (arith, unique s, ap length h, eq_iff fresh.state s),
      refl,
      fun_ext λ s. insert_head (str_eq fresh.state s) _ (select (is_state s) t.rows),
    )
  where
    insert_head :
        (b : Bool) (row : SsoState) (rows : List SsoState)
        → head? (if b then row ∷ rows else rows) ≡ (if b then some row else head? rows)
    insert_head true row rows = refl
    insert_head false row rows = refl
store-Refines fresh provider_id redirect_uri now t (row ∷ rest) unique h =
    let taken =
      any_of_select (is_state fresh.state) (is_state fresh.state) t.rows row rest h
        (select-head (is_state fresh.state) t.rows row rest h) in
    rw taken (unique, refl, refl)

-- Each call does on the table what it promises on the function, and no state is ever there twice.
pub perform-Refines :
    (now : Time) (call : StateCall) (t : States)
    → IsUnique t
    → Refines (perform now call t) (specify now call (view t))
perform-Refines now (stores fresh provider_id redirect_uri) t unique =
    store-Refines fresh provider_id redirect_uri now t _ unique refl
perform-Refines now (consumes state provider_id) t unique =
    consume-Refines state provider_id now t _ unique refl
