-- ===== src/Table/Laws.antt =====
-- Laws of the queries: counts and selections after an update, and what ordering keeps.
use accelerator_pack_auth_se.Prelude.{
  ℕ, zero, suc, ◌+◌, ◌≤◌, drop, List, [], ◌∷◌, ◌≡◌, refl, Bool, true, false, not, ◌||◌, ◌&&◌, none,
  some, ok, arith, length, head?, select, any, map,
}
use accelerator_pack_auth_se.Table.{update_where, insert_desc, order_desc, scalar_one_or_none}

module _ {ℓ} {A : Type ℓ} where
  pub length-select-update :
      (q p : A → Bool) (f : A → A) (xs : List A)
      → ((x : A) → q (f x) ≡ q x)
      → length (select q (update_where p f xs)) ≡ length (select q xs)
  unfolding select update_where
  length-select-update q p f [] keeps = refl
  length-select-update q p f (x ∷ xs) keeps =
      ground (arith, length-select-update q p f xs keeps, keeps x)

  pub length-select-update-le :
      (q p : A → Bool) (f : A → A) (xs : List A)
      → ((x : A) → q (f x) ≡ true → q x ≡ true)
      → length (select q (update_where p f xs)) ≤ length (select q xs)
  unfolding select update_where
  length-select-update-le q p f [] keeps = omega arith
  length-select-update-le q p f (x ∷ xs) keeps =
      ground (arith, length-select-update-le q p f xs keeps, keeps x)

  -- Rows that the update does not touch are selected as before.
  pub select-update_apart :
      (q p : A → Bool) (f : A → A) (xs : List A)
      → ((x : A) → p x ≡ true → q x ≡ false)
      → ((x : A) → p x ≡ true → q (f x) ≡ false)
      → select q (update_where p f xs) ≡ select q xs
  unfolding select update_where
  select-update_apart q p f [] before after = refl
  select-update_apart q p f (x ∷ xs) before after =
      ground (arith, select-update_apart q p f xs before after, before x, after x)

  pub any-update :
      (q p : A → Bool) (f : A → A) (xs : List A)
      → ((x : A) → q (f x) ≡ q x)
      → any q (update_where p f xs) ≡ any q xs
  unfolding any update_where
  any-update q p f [] keeps = refl
  any-update q p f (x ∷ xs) keeps = ground (arith, any-update q p f xs keeps, keeps x)

  length-insert_desc :
      (key : A → ℕ) (x : A) (xs : List A) → length (insert_desc key x xs) ≡ suc (length xs)
  unfolding insert_desc
  length-insert_desc key x [] = refl
  length-insert_desc key x (y ∷ ys) = ground (arith, length-insert_desc key x ys)

  pub length-order_desc : (key : A → ℕ) (xs : List A) → length (order_desc key xs) ≡ length xs
  unfolding order_desc
  length-order_desc key [] = refl
  length-order_desc key (x ∷ xs) =
      ground (arith, length-insert_desc key x (order_desc key xs), length-order_desc key xs)

  any-insert_desc :
      (q : A → Bool) (key : A → ℕ) (x : A) (xs : List A)
      → any q (insert_desc key x xs) ≡ (q x || any q xs)
  unfolding insert_desc any
  any-insert_desc q key x [] = refl
  any-insert_desc q key x (y ∷ ys) = ground (arith, any-insert_desc q key x ys)

  pub any-order_desc :
      (q : A → Bool) (key : A → ℕ) (xs : List A) → any q (order_desc key xs) ≡ any q xs
  unfolding order_desc any
  any-order_desc q key [] = refl
  any-order_desc q key (x ∷ xs) =
      ground (arith, any-insert_desc q key x (order_desc key xs), any-order_desc q key xs)

  pub any-select_both :
      (q p : A → Bool) (xs : List A) → any q (select p xs) ≡ any (λ x. p x && q x) xs
  unfolding any select
  any-select_both q p [] = refl
  any-select_both q p (x ∷ xs) = ground (arith, any-select_both q p xs)

  -- `scalar_one_or_none` fails only on two rows or more.
  pub scalar_one_or_none-le : (xs : List A) → length xs ≤ 1 → scalar_one_or_none xs ≡ ok (head? xs)
  scalar_one_or_none-le [] h = refl
  scalar_one_or_none-le (x ∷ []) h = refl
  scalar_one_or_none-le (x ∷ y ∷ rest) h = absurd (omega arith)

  pub head?-none : (xs : List A) → head? xs ≡ none → length xs ≡ 0
  head?-none [] h = refl
  head?-none (x ∷ xs) h = cc

  pub scalar_one_or_none-some :
      (xs : List A) (x : A) → scalar_one_or_none xs ≡ ok (some x) → xs ≡ x ∷ []
  scalar_one_or_none-some [] x h = cc
  scalar_one_or_none-some (y ∷ []) x h = ground arith
  scalar_one_or_none-some (y ∷ z ∷ rest) x h = cc

  pub select-update_self :
      (p : A → Bool) (f : A → A) (xs : List A)
      → ((x : A) → p (f x) ≡ p x)
      → select p (update_where p f xs) ≡ map f (select p xs)
  unfolding select update_where
  select-update_self p f [] keeps = refl
  select-update_self p f (x ∷ xs) keeps = ground (arith, select-update_self p f xs keeps, keeps x)

module _ {ℓ} {A : Type ℓ} where
  -- An update that takes rows out of a selection.
  pub select-update_out :
      (q p : A → Bool) (f : A → A) (xs : List A)
      → ((x : A) → q (f x) ≡ false)
      → select q (update_where p f xs) ≡ select (λ x. not (p x)) (select q xs)
  unfolding select update_where
  select-update_out q p f [] out = refl
  select-update_out q p f (x ∷ xs) out = ground (arith, select-update_out q p f xs out, out x)

  length-select-insert_desc :
      (q : A → Bool) (key : A → ℕ) (x : A) (xs : List A)
      → length (select q (insert_desc key x xs)) ≡ length (select q (x ∷ xs))
  unfolding insert_desc select
  length-select-insert_desc q key x [] = refl
  length-select-insert_desc q key x (y ∷ ys) = ground (arith, length-select-insert_desc q key x ys)

  pub length-select-order_desc :
      (q : A → Bool) (key : A → ℕ) (xs : List A)
      → length (select q (order_desc key xs)) ≡ length (select q xs)
  unfolding order_desc select
  length-select-order_desc q key [] = refl
  length-select-order_desc q key (x ∷ xs) = ground (
    arith,
    length-select-insert_desc q key x (order_desc key xs),
    length-select-order_desc q key xs,
  )

  -- A selection is at most as long as the first `n` rows and what it takes of the others.
  pub length-select-drop :
      (q : A → Bool) (n : ℕ) (xs : List A)
      → length (select q xs) ≤ n + length (select q (drop n xs))
  unfolding select
  length-select-drop q zero xs = omega arith
  length-select-drop q (suc n) [] = omega arith
  length-select-drop q (suc n) (x ∷ xs) = ground (arith, length-select-drop q n xs)

  pub length-select-le : (q : A → Bool) (xs : List A) → length (select q xs) ≤ length xs
  unfolding select
  length-select-le q [] = omega arith
  length-select-le q (x ∷ xs) = ground (arith, length-select-le q xs)

  pub length-select-lt :
      (q : A → Bool) (xs : List A)
      → any q xs ≡ true
      → length (select (λ x. not (q x)) xs) + 1 ≤ length xs
  unfolding select any
  length-select-lt q [] h = cc
  length-select-lt q (x ∷ xs) h =
      ground (arith, length-select-lt q xs, length-select-le (λ y. not (q y)) xs)

  -- What a selection returns passes its test.
  pub select-head :
      (p : A → Bool) (xs : List A) (x : A) (rest : List A) → select p xs ≡ x ∷ rest → p x ≡ true
  unfolding select
  select-head p [] x rest h = cc
  select-head p (y ∷ ys) x rest h = ground (arith, select-head p ys x rest)

  -- The one row of a selection is also in every other selection whose test it passes.
  pub any_of_single :
      (q p r : A → Bool) (xs : List A) (x : A)
      → select p xs ≡ x ∷ []
      → q x ≡ true
      → r x ≡ true
      → any r (select q xs) ≡ true
  unfolding select any
  any_of_single q p r [] x h hq hr = cc
  any_of_single q p r (y ∷ ys) x h hq hr = ground (arith, any_of_single q p r ys x)

  pub any_of_select :
      (p r : A → Bool) (xs : List A) (x : A) (rest : List A)
      → select p xs ≡ x ∷ rest
      → r x ≡ true
      → any r xs ≡ true
  unfolding select any
  any_of_select p r [] x rest h hr = cc
  any_of_select p r (y ∷ ys) x rest h hr = ground (arith, any_of_select p r ys x rest)

  pub length-select_mono :
      (p q : A → Bool) (xs : List A)
      → ((x : A) → p x ≡ true → q x ≡ true)
      → length (select p xs) ≤ length (select q xs)
  unfolding select
  length-select_mono p q [] sub = omega arith
  length-select_mono p q (x ∷ xs) sub = ground (arith, length-select_mono p q xs sub, sub x)
