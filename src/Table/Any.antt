-- ===== src/Table/Any.antt =====
-- Whether some row passes a test: how tests combine, and what one selected row decides.
use accelerator_pack_auth_se.Prelude.{
  String, List, [], ◌∷◌, ◌++◌, ◌≡◌, refl, ap, sym, subst, ◌∙◌, fun_ext, Bool, true, false, not,
  ◌&&◌, ◌||◌, inl, arith, str_eq, select, any, map, flat_map, contains, contains-append, is_empty,
}
use accelerator_pack_auth_se.Table.Membership.{In, In-select}

module _ {A : Type 0} where
  pub any-false : (p : A → Bool) (xs : List A) → any (λ x. p x && false) xs ≡ false
  unfolding any
  any-false p [] = refl
  any-false p (x ∷ xs) = ground (arith, any-false p xs)

  pub any_or :
      (p q r : A → Bool) (xs : List A)
      → any (λ x. p x && (q x || r x)) xs ≡ (any (λ x. p x && q x) xs || any (λ x. p x && r x) xs)
  unfolding any
  any_or p q r [] = refl
  any_or p q r (x ∷ xs) = ground (arith, any_or p q r xs)

  pub any_empty : (p : A → Bool) (xs : List A) → select p xs ≡ [] → any p xs ≡ false
  unfolding any select
  any_empty p [] h = refl
  any_empty p (x ∷ xs) h = ground (arith, any_empty p xs)

  pub any_both_empty :
      (p q : A → Bool) (xs : List A) → select p xs ≡ [] → any (λ x. q x && p x) xs ≡ false
  unfolding any select
  any_both_empty p q [] h = refl
  any_both_empty p q (x ∷ xs) h = ground (arith, any_both_empty p q xs)

  pub any_both_single :
      (p q : A → Bool) (xs : List A) (x : A) → select p xs ≡ x ∷ [] → any (λ y. q y && p y) xs ≡ q x
  unfolding any select
  any_both_single p q [] x h = cc
  any_both_single p q (y ∷ ys) x h = ground (arith, any_both_single p q ys x, any_both_empty p q ys)

  pub In-single : (p : A → Bool) (xs : List A) (x : A) → select p xs ≡ x ∷ [] → In x xs
  In-single p xs x h = (In-select p xs x (subst (λ ys. In x ys) (sym h) (inl refl))).0

  pub any_single : (p : A → Bool) (xs : List A) (x : A) → select p xs ≡ x ∷ [] → any p xs ≡ true
  unfolding any select
  any_single p [] x h = cc
  any_single p (y ∷ ys) x h = ground (arith, any_single p ys x)

  pub contains-const :
      (name : String) (xs : List A) (s : String)
      → contains (map (λ x. name) xs) s ≡ (str_eq name s && not (is_empty xs))
  unfolding contains
  contains-const name [] s = ground arith
  contains-const name (x ∷ xs) s = ground (arith, contains-const name xs s)

module _ {A : Type 0} where
  any-append : (p : A → Bool) (xs ys : List A) → any p (xs ++ ys) ≡ (any p xs || any p ys)
  unfolding any
  any-append p [] ys = refl
  any-append p (x ∷ xs) ys = ground (arith, any-append p xs ys)

module _ {A : Type 0} where
  pub contains-flat_map :
      {B : Type 0} (name : A → String) (f : A → List B) (xs : List A) (s : String)
      → contains (flat_map (λ x. map (λ y. name x) (f x)) xs) s
        ≡ any (λ x. str_eq (name x) s && not (is_empty (f x))) xs
  unfolding any contains flat_map
  contains-flat_map name f [] s = refl
  contains-flat_map name f (x ∷ xs) s =
      contains-append (map (λ y. name x) (f x)) (flat_map (λ x. map (λ y. name x) (f x)) xs) s
      ∙ ground (arith, contains-const (name x) (f x) s, contains-flat_map name f xs s)

  pub any-flat_map :
      {B : Type 0} (p : B → Bool) (f : A → List B) (xs : List A)
      → any p (flat_map f xs) ≡ any (λ x. any p (f x)) xs
  unfolding any flat_map
  any-flat_map p f [] = refl
  any-flat_map p f (x ∷ xs) =
      any-append p (f x) (flat_map f xs) ∙ ap (λ b. any p (f x) || b) (any-flat_map p f xs)

  pub any-select_and :
      (p q : A → Bool) (xs : List A) → any q (select p xs) ≡ any (λ x. p x && q x) xs
  unfolding any select
  any-select_and p q [] = refl
  any-select_and p q (x ∷ xs) = ground (arith, any-select_and p q xs)

  pub any-map_const :
      {B : Type 0} (p : B → Bool) (y : B) (xs : List A)
      → any p (map (λ x. y) xs) ≡ (p y && not (is_empty xs))
  unfolding any
  any-map_const p y [] = ground arith
  any-map_const p y (x ∷ xs) = ground (arith, any-map_const p y xs)

  pub nonempty-select : (p : A → Bool) (xs : List A) → not (is_empty (select p xs)) ≡ any p xs
  unfolding any select
  nonempty-select p [] = refl
  nonempty-select p (x ∷ xs) = ground (arith, nonempty-select p xs)

module _ {A : Type 0} where
  pub any_factor :
      (b : Bool) (p q : A → Bool) (xs : List A)
      → any (λ x. p x && (b && q x)) xs ≡ (b && any (λ x. p x && q x) xs)
  unfolding any
  any_factor b p q [] = ground arith
  any_factor b p q (x ∷ xs) = ground (arith, any_factor b p q xs)

  pub any_same : (p q : A → Bool) (xs : List A) → ((x : A) → p x ≡ q x) → any p xs ≡ any q xs
  any_same p q xs h = ap (λ t. any t xs) (fun_ext h)

  pub contains-map :
      (name : A → String) (xs : List A) (s : String)
      → contains (map name xs) s ≡ any (λ x. str_eq (name x) s) xs
  unfolding any contains
  contains-map name [] s = refl
  contains-map name (x ∷ xs) s = ground (arith, contains-map name xs s)
