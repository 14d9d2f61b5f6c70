-- ===== src/Table.antt =====
-- The tables of the database and the queries that the service writes: selection, update and
-- deletion by a condition, ordering, and the readers of a result. A row is added at the front.
pub mod Laws
pub mod Membership
pub mod Ordering
pub mod Apart
pub mod Any
pub mod Joins
pub mod Orders
use accelerator_pack_auth_se.Prelude.{
  ℕ, suc, List, [], ◌∷◌, ◌++◌, ◌≡◌, refl, ap, Bool, true, false, not, ◌||◌, ◌&&◌, Option, none,
  some, Result, ok, err, multiple_results_found, arith, ltb, leb, ◌==◌, if◌then◌else◌, select, any,
  all,
}

-- `next_id` is the value that the identity column gives to the next row.
pub record Table {ℓ} (A : Type ℓ) : Type ℓ where
  pub rows : List A
  pub next_id : ℕ

module _ {ℓ} {A : Type ℓ} where
  abbrev pub empty_table : Table A
  empty_table = record { rows = []; next_id = 1 }

  abbrev pub insert_row : (ℕ → A) → Table A → Table A
  insert_row row t = record { rows = row t.next_id ∷ t.rows; next_id = suc t.next_id }

  -- `UPDATE … WHERE`: the rows that pass the test are changed.
  unfoldable pub update_where : (A → Bool) → (A → A) → List A → List A
  update_where p f [] = []
  update_where p f (x ∷ xs) = (if p x then f x else x) ∷ update_where p f xs

  unfoldable pub delete_where : (A → Bool) → List A → List A
  delete_where p xs = select (λ x. not (p x)) xs

  -- A result read by `scalar_one_or_none` has at most one row.
  abbrev pub scalar_one_or_none : List A → Result (Option A)
  scalar_one_or_none [] = ok none
  scalar_one_or_none (x ∷ []) = ok (some x)
  scalar_one_or_none (x ∷ y ∷ rest) = err multiple_results_found

  insert_desc : (A → ℕ) → A → List A → List A
  insert_desc key x [] = x ∷ []
  insert_desc key x (y ∷ ys) =
      let rest = insert_desc key x ys in if ltb (key x) (key y) then y ∷ rest else x ∷ y ∷ ys

  -- `ORDER BY key DESC`; rows with one key keep their order.
  unfoldable pub order_desc : (A → ℕ) → List A → List A
  unfolding insert_desc
  order_desc key [] = []
  order_desc key (x ∷ xs) = insert_desc key x (order_desc key xs)

  pub any-select : (p : A → Bool) (xs : List A) → any p xs ≡ false → select p xs ≡ []
  unfolding any select
  any-select p [] h = refl
  any-select p (x ∷ xs) h = ground (arith, any-select p xs)
