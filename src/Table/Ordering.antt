-- ===== src/Table/Ordering.antt =====
-- Lists in descending order of a key, and their pages.
use accelerator_pack_auth_se.Prelude.{
  ℕ, zero, suc, ◌+◌, ◌≤◌, List, [], ◌∷◌, ◌++◌, ◌≡◌, refl, ap, arith, ltb, length, take, drop,
  Bool-cases, inl, inr,
}
use accelerator_pack_auth_se.Table.{insert_desc, order_desc}

module _ {A : Type 0} where
  take_nil : (b : ℕ) → [] ≡ take {A = A} b []
  take_nil zero = refl
  take_nil (suc b) = refl

  pub take-add : (a b : ℕ) (xs : List A) → take (a + b) xs ≡ take a xs ++ take b (drop a xs)
  take-add zero b xs = let e : 0 + b ≡ b = omega arith in ap (λ n. take n xs) e
  take-add (suc a) b [] = let e : suc a + b ≡ suc (a + b) = omega arith in rw e (take_nil b)
  take-add (suc a) b (x ∷ xs) =
      let e : suc a + b ≡ suc (a + b) = omega arith in rw e (ap (λ ys. x ∷ ys) (take-add a b xs))

  pub take_all : (n : ℕ) (xs : List A) → length xs ≤ n → take n xs ≡ xs
  take_all zero [] h = refl
  take_all zero (x ∷ xs) h = absurd (omega arith)
  take_all (suc n) [] h = refl
  take_all (suc n) (x ∷ xs) h = ground (arith, take_all n xs)

  -- Every element's key is at most the bound.
  abbrev pub AllBelow : (A → ℕ) → ℕ → List A → Type 0
  AllBelow key bound [] = Unit
  AllBelow key bound (x ∷ xs) = (key x ≤ bound) × AllBelow key bound xs

  abbrev pub IsDescending : (A → ℕ) → List A → Type 0
  IsDescending key [] = Unit
  IsDescending key (x ∷ xs) = AllBelow key (key x) xs × IsDescending key xs

  AllBelow-mono :
      (key : A → ℕ) (a b : ℕ) (xs : List A) → a ≤ b → AllBelow key a xs → AllBelow key b xs
  AllBelow-mono key a b [] h all = tt
  AllBelow-mono key a b (x ∷ xs) h all = (omega arith, AllBelow-mono key a b xs h all.1)

  AllBelow-insert_desc :
      (key : A → ℕ) (bound : ℕ) (x : A) (xs : List A)
      → key x ≤ bound
      → AllBelow key bound xs
      → AllBelow key bound (insert_desc key x xs)
  unfolding insert_desc
  AllBelow-insert_desc key bound x [] h all = (h, tt)
  AllBelow-insert_desc key bound x (y ∷ ys) h all = elim (Bool-cases (ltb (key x) (key y))) [
    | inl e ↦ rw e (all.0, AllBelow-insert_desc key bound x ys h all.1)
    | inr e ↦ rw e (h, all)
  ]

  insert_desc-IsDescending :
      (key : A → ℕ) (x : A) (xs : List A)
      → IsDescending key xs
      → IsDescending key (insert_desc key x xs)
  unfolding insert_desc
  insert_desc-IsDescending key x [] d = (tt, tt)
  insert_desc-IsDescending key x (y ∷ ys) d = elim (Bool-cases (ltb (key x) (key y))) [
    | inl e ↦ rw e (
      AllBelow-insert_desc key (key y) x ys (ground arith) d.0,
      insert_desc-IsDescending key x ys d.1,
    )
    | inr e ↦
        let le : key y ≤ key x = ground arith in
        rw e ((le, AllBelow-mono key (key y) (key x) ys le d.0), d)
  ]

  pub order_desc-IsDescending : (key : A → ℕ) (xs : List A) → IsDescending key (order_desc key xs)
  unfolding order_desc
  order_desc-IsDescending key [] = tt
  order_desc-IsDescending key (x ∷ xs) =
      insert_desc-IsDescending key x (order_desc key xs) (order_desc-IsDescending key xs)
