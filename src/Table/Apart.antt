-- ===== src/Table/Apart.antt =====
-- Queries and changes of a table that concern different rows: no row passes both tests.
use accelerator_pack_auth_se.Prelude.{
  List, [], ◌∷◌, ◌++◌, ◌≡◌, refl, Bool, true, false, ◌&&◌, arith, select, any, map,
}
use accelerator_pack_auth_se.Table.{update_where, delete_where}

module _ {ℓ} {A : Type ℓ} (p q : A → Bool) where
  abbrev pub IsApart : List A → Type 0
  IsApart xs = any (λ x. p x && q x) xs ≡ false

  pub IsApart-pointwise : (xs : List A) → ((x : A) → p x ≡ true → q x ≡ false) → IsApart xs
  unfolding any
  IsApart-pointwise [] h = refl
  IsApart-pointwise (x ∷ xs) h = ground (arith, IsApart-pointwise xs h, h x)

  -- The one row that passes a test does not pass the other.
  pub IsApart-single : (xs : List A) (x : A) → select p xs ≡ x ∷ [] → q x ≡ false → IsApart xs
  unfolding select any
  IsApart-single [] x h e = refl
  IsApart-single (y ∷ ys) x h e = ground (arith, IsApart-single ys x, apart_empty ys)
    where
      apart_empty : (zs : List A) → select p zs ≡ [] → any (λ z. p z && q z) zs ≡ false
      apart_empty [] h = refl
      apart_empty (z ∷ zs) h = ground (arith, apart_empty zs)

  pub select-delete_apart : (xs : List A) → IsApart xs → select q (delete_where p xs) ≡ select q xs
  unfolding select delete_where any
  select-delete_apart [] h = refl
  select-delete_apart (x ∷ xs) h = ground (arith, select-delete_apart xs)

  pub any-delete_apart : (xs : List A) → IsApart xs → any q (delete_where p xs) ≡ any q xs
  unfolding select delete_where any
  any-delete_apart [] h = refl
  any-delete_apart (x ∷ xs) h = ground (arith, any-delete_apart xs)

  pub select-replace_apart :
      (f : A → A) (xs : List A)
      → IsApart xs
      → ((x : A) → p x ≡ true → q (f x) ≡ false)
      → select q (update_where p f xs) ≡ select q xs
  unfolding select update_where any
  select-replace_apart f [] h out = refl
  select-replace_apart f (x ∷ xs) h out = ground (arith, select-replace_apart f xs, out x)

  pub any-replace_apart :
      (f : A → A) (xs : List A)
      → IsApart xs
      → ((x : A) → p x ≡ true → q (f x) ≡ false)
      → any q (update_where p f xs) ≡ any q xs
  unfolding update_where any
  any-replace_apart f [] h out = refl
  any-replace_apart f (x ∷ xs) h out = ground (arith, any-replace_apart f xs, out x)

module _ {ℓ κ} {A : Type ℓ} {B : Type κ} where
  pub select-map_none :
      (q : A → Bool) (f : B → A) (ys : List B) (xs : List A)
      → ((y : B) → q (f y) ≡ false)
      → select q (map f ys ++ xs) ≡ select q xs
  unfolding select
  select-map_none q f [] xs h = refl
  select-map_none q f (y ∷ ys) xs h = ground (arith, select-map_none q f ys xs h, h y)

module _ {ℓ} {A : Type ℓ} where
  -- Rows that are replaced by one that passes the same test.
  pub select-replace_self :
      (p : A → Bool) (y : A) (xs : List A)
      → p y ≡ true
      → select p (update_where p (λ _. y) xs) ≡ map (λ _. y) (select p xs)
  unfolding select update_where
  select-replace_self p y [] h = refl
  select-replace_self p y (x ∷ xs) h = ground (arith, select-replace_self p y xs h)
