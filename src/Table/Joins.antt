-- ===== src/Table/Joins.antt =====
-- Being a row of a join: of a selection, of the rows that a list of rows maps to, and how many rows a
-- join has at least.
use accelerator_pack_auth_se.Prelude.{
  ◌≤◌, ◌+◌, List, [], ◌∷◌, ◌++◌, ◌≡◌, ◌≢◌, refl, ap, sym, subst, ◌∙◌, ◌⊎◌, Bool, true, false, ◌||◌,
  arith, length, select, map, flat_map, Bool-cases, inl, inr,
}
use accelerator_pack_auth_se.Table.Membership.{In}

module _ {A : Type 0} where
  abbrev pub nonempty : List A → Bool
  nonempty [] = false
  nonempty (x ∷ xs) = true

  pub nonempty-In : (xs : List A) → nonempty xs ≡ true → (x : A) × In x xs
  nonempty-In [] h = cc
  nonempty-In (x ∷ xs) h = (x, inl refl)

  pub In-nonempty : (xs : List A) (x : A) → In x xs → nonempty xs ≡ true
  In-nonempty [] x m = elim m [ ]
  In-nonempty (y ∷ ys) x m = refl

  pub nonempty-append : (xs ys : List A) → nonempty (xs ++ ys) ≡ (nonempty xs || nonempty ys)
  nonempty-append [] ys = refl
  nonempty-append (x ∷ xs) ys = refl

  pub In-selected : (p : A → Bool) (xs : List A) (x : A) → In x xs → p x ≡ true → In x (select p xs)
  unfolding select
  In-selected p [] x m h = elim m [ ]
  In-selected p (y ∷ ys) x (inl here) h =
      let passes : p y ≡ true = subst (λ z. p z ≡ true) here h in rw passes (inl here)
  In-selected p (y ∷ ys) x (inr there) h = elim (Bool-cases (p y)) [
    | inl e ↦ rw e (inr (In-selected p ys x there h))
    | inr e ↦ rw e (In-selected p ys x there h)
  ]

  In-append : (xs ys : List A) (x : A) → In x (xs ++ ys) → In x xs ⊎ In x ys
  In-append [] ys x m = inr m
  In-append (z ∷ xs) ys x (inl here) = inl (inl here)
  In-append (z ∷ xs) ys x (inr there) = elim (In-append xs ys x there) [
    | inl m ↦ inl (inr m)
    | inr m ↦ inr m
  ]

  In-left : (xs ys : List A) (x : A) → In x xs → In x (xs ++ ys)
  In-left [] ys x m = elim m [ ]
  In-left (z ∷ xs) ys x (inl here) = inl here
  In-left (z ∷ xs) ys x (inr there) = inr (In-left xs ys x there)

  In-right : (xs ys : List A) (x : A) → In x ys → In x (xs ++ ys)
  In-right [] ys x m = m
  In-right (z ∷ xs) ys x m = inr (In-right xs ys x m)

  length-append : (xs ys : List A) → length (xs ++ ys) ≡ length xs + length ys
  length-append [] ys = omega arith
  length-append (x ∷ xs) ys = ground (arith, length-append xs ys)

  pub length-nonempty : (xs : List A) → nonempty xs ≡ true → 1 ≤ length xs
  length-nonempty [] h = cc
  length-nonempty (x ∷ xs) h = omega arith

module _ {A B : Type 0} (f : A → List B) where
  pub In-flat_map : (xs : List A) (y : B) → In y (flat_map f xs) → (x : A) × In x xs × In y (f x)
  unfolding flat_map
  In-flat_map [] y m = elim m [ ]
  In-flat_map (x ∷ xs) y m = elim (In-append (f x) (flat_map f xs) y m) [
    | inl here ↦ (x, inl refl, here)
    | inr there ↦ let (z, row, made) = In-flat_map xs y there in (z, inr row, made)
  ]

  pub In-flat_mapped : (xs : List A) (x : A) (y : B) → In x xs → In y (f x) → In y (flat_map f xs)
  unfolding flat_map
  In-flat_mapped [] x y m n = elim m [ ]
  In-flat_mapped (z ∷ xs) x y (inl here) n = rw here at (In-left (f x) (flat_map f xs) y n)
  In-flat_mapped (z ∷ xs) x y (inr there) n =
      In-right (f z) (flat_map f xs) y (In-flat_mapped xs x y there n)

  pub length-flat_map-le : (xs : List A) (x : A) → In x xs → length (f x) ≤ length (flat_map f xs)
  unfolding flat_map
  length-flat_map-le [] x m = elim m [ ]
  length-flat_map-le (z ∷ xs) x (inl here) =
      let same = ap (λ w. length (f w)) here in
      ground (arith, length-append (f z) (flat_map f xs), same)
  length-flat_map-le (z ∷ xs) x (inr there) =
      ground (arith, length-append (f z) (flat_map f xs), length-flat_map-le xs x there)

  -- Two rows that each make a row make two.
  pub length-flat_map-two :
      (xs : List A) (x y : A)
      → In x xs
      → In y xs
      → x ≢ y
      → 1 ≤ length (f x)
      → 1 ≤ length (f y)
      → 2 ≤ length (flat_map f xs)
  unfolding flat_map
  length-flat_map-two [] x y m n apart one other = elim m [ ]
  length-flat_map-two (z ∷ xs) x y (inl m) (inl n) apart one other = absurd (apart (m ∙ sym n))
  length-flat_map-two (z ∷ xs) x y (inl m) (inr n) apart one other =
      let same = ap (λ w. length (f w)) m in
      ground (arith, length-append (f z) (flat_map f xs), same, length-flat_map-le xs y n)
  length-flat_map-two (z ∷ xs) x y (inr m) (inl n) apart one other =
      let same = ap (λ w. length (f w)) n in
      ground (arith, length-append (f z) (flat_map f xs), same, length-flat_map-le xs x m)
  length-flat_map-two (z ∷ xs) x y (inr m) (inr n) apart one other =
      ground
        (arith, length-append (f z) (flat_map f xs), length-flat_map-two xs x y m n apart one other)

module _ {A B : Type 0} (f : A → B) where
  pub In-map : (xs : List A) (y : B) → In y (map f xs) → (x : A) × In x xs × (y ≡ f x)
  In-map [] y m = elim m [ ]
  In-map (x ∷ xs) y (inl here) = (x, inl refl, here)
  In-map (x ∷ xs) y (inr there) = let (z, row, made) = In-map xs y there in (z, inr row, made)

  pub In-mapped : (xs : List A) (x : A) → In x xs → In (f x) (map f xs)
  In-mapped [] x m = elim m [ ]
  In-mapped (z ∷ xs) x (inl here) = inl (ap f here)
  In-mapped (z ∷ xs) x (inr there) = inr (In-mapped xs x there)
