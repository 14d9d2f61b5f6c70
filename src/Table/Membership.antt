-- ===== src/Table/Membership.antt =====
-- Being a row of a list, and what selection and ordering keep of it.
use accelerator_pack_auth_se.Prelude.{
  ℕ, ◌≤◌, List, [], ◌∷◌, ◌≡◌, refl, Bool, true, some, arith, length, head?, select, ltb, Bool-cases,
  ◌⊎◌, inl, inr,
}
use accelerator_pack_auth_se.Table.{insert_desc, order_desc}

module _ {A : Type 0} where
  abbrev pub In : A → List A → Type 0
  In x [] = ⊥
  In x (y ∷ ys) = (x ≡ y) ⊎ In x ys

  pub In-head? : (xs : List A) (x : A) → head? xs ≡ some x → In x xs
  In-head? [] x h = cc
  In-head? (y ∷ ys) x h = inl (ground arith)

  In-split :
      (p : A → Bool) (x y : A) (ys zs : List A)
      → p y ≡ true
      → (In x zs → In x ys × (p x ≡ true))
      → In x (y ∷ zs)
      → In x (y ∷ ys) × (p x ≡ true)
  In-split p x y ys zs e rec (inl here) = (inl here, rw here e)
  In-split p x y ys zs e rec (inr there) = (inr (rec there).0, (rec there).1)

  -- A selected row is a row that passes the test.
  pub In-select : (p : A → Bool) (xs : List A) (x : A) → In x (select p xs) → In x xs × (p x ≡ true)
  unfolding select
  In-select p [] x h = elim h [ ]
  In-select p (y ∷ ys) x h = elim (Bool-cases (p y)) [
    | inl e ↦ In-split p x y ys (select p ys) e (In-select p ys x) (rw e at h)
    | inr e ↦ let (there, q) = In-select p ys x (rw e at h) in (inr there, q)
  ]

  In-below :
      (x y z : A) (zs ws : List A) → (In x ws → In x (y ∷ zs)) → In x (z ∷ ws) → In x (y ∷ z ∷ zs)
  In-below x y z zs ws rec (inl e) = inr (inl e)
  In-below x y z zs ws rec (inr m) = elim (rec m) [ inl e ↦ inl e | inr n ↦ inr (inr n) ]

  In-insert_desc :
      (key : A → ℕ) (y : A) (ys : List A) (x : A) → In x (insert_desc key y ys) → In x (y ∷ ys)
  unfolding insert_desc
  In-insert_desc key y [] x h = h
  In-insert_desc key y (z ∷ zs) x h = elim (Bool-cases (ltb (key y) (key z))) [
    | inl e ↦ In-below x y z zs (insert_desc key y zs) (In-insert_desc key y zs x) (rw e at h)
    | inr e ↦ rw e at h
  ]

  In-or : (x y : A) (ys zs : List A) → (In x zs → In x ys) → In x (y ∷ zs) → In x (y ∷ ys)
  In-or x y ys zs rec (inl e) = inl e
  In-or x y ys zs rec (inr m) = inr (rec m)

  pub In-order_desc : (key : A → ℕ) (xs : List A) (x : A) → In x (order_desc key xs) → In x xs
  unfolding order_desc
  In-order_desc key [] x h = h
  In-order_desc key (y ∷ ys) x h =
      In-or x y ys (order_desc key ys) (In-order_desc key ys x)
        (In-insert_desc key y (order_desc key ys) x h)

  length-select-pos :
      (q : A → Bool) (xs : List A) (x : A) → In x xs → q x ≡ true → 1 ≤ length (select q xs)
  unfolding select
  length-select-pos q [] x m h = elim m [ ]
  length-select-pos q (y ∷ ys) x (inl here) h = ground arith
  length-select-pos q (y ∷ ys) x (inr there) h = ground (arith, length-select-pos q ys x there h)

  is_nil : (xs : List A) → length xs ≡ 0 → xs ≡ []
  is_nil [] h = refl
  is_nil (x ∷ xs) h = absurd (omega arith)

  -- The only row that a test selects is the one that passes it.
  pub select-In :
      (q : A → Bool) (xs : List A) (x : A)
      → In x xs
      → q x ≡ true
      → length (select q xs) ≤ 1
      → select q xs ≡ x ∷ []
  unfolding select
  select-In q [] x m h l = elim m [ ]
  select-In q (y ∷ ys) x (inl here) h l = ground (arith, is_nil (select q ys))
  select-In q (y ∷ ys) x (inr there) h l =
      ground (arith, select-In q ys x there h, length-select-pos q ys x there h)
