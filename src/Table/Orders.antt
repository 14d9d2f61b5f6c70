-- ===== src/Table/Orders.antt =====
-- `ORDER BY … DESC`: the rows come back with the greatest key first, those of one key in any order.
use accelerator_pack_auth_se.Prelude.{
  ℕ, ◌≤◌, List, [], ◌∷◌, ◌≡◌, refl, ap, sym, subst, ◌∙◌, Bool, true, arith, ◌==◌, length, select,
  Bool-cases, inl, inr, ◌⊎◌, ltb,
}
use accelerator_pack_auth_se.Table.{insert_desc, order_desc}
use accelerator_pack_auth_se.Table.Laws.{length-select-order_desc}
use accelerator_pack_auth_se.Table.Membership.{In, In-select, In-order_desc}
use accelerator_pack_auth_se.Table.Joins.{In-selected}
use accelerator_pack_auth_se.Table.Ordering.{AllBelow, IsDescending, order_desc-IsDescending}

module _ {A : Type 0} (key : A → ℕ) where
  -- What SQL says of an order by a key: every row comes back, as often as it is there, and the keys
  -- descend. The order of equal keys is left open.
  pub record IsOrderBy (sort : List A → List A) : Type 0 where
    pub keeps : (rows : List A) (x : A) → In x rows → In x (sort rows)
    pub counts :
        (rows : List A) (p : A → Bool) → length (select p (sort rows)) ≡ length (select p rows)
    pub descends : (rows : List A) → IsDescending key (sort rows)

  -- No two rows have one key.
  abbrev pub IsDistinct : List A → Type 0
  IsDistinct rows = (k : ℕ) → length (select (λ x. key x == k) rows) ≤ 1

  In-length : (xs : List A) (x : A) → In x xs → 1 ≤ length xs
  In-length [] x m = elim m [ ]
  In-length (y ∷ ys) x m = omega arith

  length-In : (xs : List A) → 1 ≤ length xs → (x : A) × In x xs
  length-In [] h = absurd (omega arith)
  length-In (x ∷ xs) h = (x, inl refl)

  counted : (p : A → Bool) (xs : List A) (x : A) → In x xs → p x ≡ true → 1 ≤ length (select p xs)
  counted p xs x m e = In-length (select p xs) x (In-selected p xs x m e)

  AllBelow-In : (bound : ℕ) (xs : List A) (x : A) → AllBelow key bound xs → In x xs → key x ≤ bound
  AllBelow-In bound [] x all m = elim m [ ]
  AllBelow-In bound (y ∷ ys) x all (inl here) = subst (λ z. key z ≤ bound) (sym here) all.0
  AllBelow-In bound (y ∷ ys) x all (inr there) = AllBelow-In bound ys x all.1 there

  head_greatest :
      (x : A) (xs : List A) (z : A) → IsDescending key (x ∷ xs) → In z (x ∷ xs) → key z ≤ key x
  head_greatest x xs z d (inl here) = let e = ap key here in omega arith
  head_greatest x xs z d (inr there) = AllBelow-In (key x) xs z d.0 there

  same_key : (k : ℕ) (x : A) → key x ≡ k → (key x == k) ≡ true
  same_key k x h = ground arith

  key_same : (k : ℕ) (x : A) → (key x == k) ≡ true → key x ≡ k
  key_same k x h = ground arith

  twice :
      (x : A) (xs : List A) (z : A)
      → In z xs
      → key z ≡ key x
      → 2 ≤ length (select (λ w. key w == key x) (x ∷ xs))
  unfolding select
  twice x xs z m e =
      rw (same_key (key x) x refl)
        (let one = counted (λ w. key w == key x) xs z m (same_key (key x) z e) in omega arith)

  tail_counts :
      (p : A → Bool) (x y : A) (xs ys : List A)
      → x ≡ y
      → length (select p (x ∷ xs)) ≡ length (select p (y ∷ ys))
      → length (select p xs) ≡ length (select p ys)
  unfolding select
  tail_counts p x y xs ys e h = let f = ap p e in ground arith

  tail_distinct :
      (p : A → Bool) (x : A) (xs : List A) → length (select p xs) ≤ length (select p (x ∷ xs))
  unfolding select
  tail_distinct p x xs = ground arith

  le_one : {a b : ℕ} → a ≤ b → b ≤ 1 → a ≤ 1
  le_one h k = omega arith

  In-inserted : (x y : A) (ys : List A) → (x ≡ y) ⊎ In x ys → In x (insert_desc key y ys)
  unfolding insert_desc
  In-inserted x y [] m = m
  In-inserted x y (z ∷ zs) m = elim (Bool-cases (ltb (key y) (key z))) [
    | inl e ↦ rw e (below (In-inserted x y zs) m)
    | inr e ↦ rw e m
  ]
    where
      below :
          ((x ≡ y) ⊎ In x zs → In x (insert_desc key y zs))
          → (x ≡ y) ⊎ In x (z ∷ zs)
          → In x (z ∷ insert_desc key y zs)
      below rest (inl here) = inr (rest (inl here))
      below rest (inr (inl next)) = inl next
      below rest (inr (inr there)) = inr (rest (inr there))

  pub In-ordered : (rows : List A) (x : A) → In x rows → In x (order_desc key rows)
  unfolding order_desc
  In-ordered [] x m = m
  In-ordered (y ∷ ys) x (inl here) = In-inserted x y (order_desc key ys) (inl here)
  In-ordered (y ∷ ys) x (inr there) =
      In-inserted x y (order_desc key ys) (inr (In-ordered ys x there))

  -- Of rows with distinct keys there is one descending order.
  unique :
      (xs ys : List A)
      → IsDescending key xs
      → IsDescending key ys
      → ((p : A → Bool) → length (select p xs) ≡ length (select p ys))
      → ((x : A) → In x xs → In x ys)
      → IsDistinct xs
      → xs ≡ ys
  unfolding select
  unique [] [] dx dy count member distinct = refl
  unique [] (y ∷ ys) dx dy count member distinct = let c = count (λ z. true) in absurd (omega arith)
  unique (x ∷ xs) [] dx dy count member distinct = elim (member x (inl refl)) [ ]
  unique (x ∷ xs) (y ∷ ys) dx dy count member distinct = elim (member x (inl refl)) [
    | inl same ↦
        let rest =
          unique xs ys dx.1 dy.1 (λ p. tail_counts p x y xs ys same (count p))
            (λ z m. in_tail same z m (member z (inr m)))
            (λ k. le_one (tail_distinct (λ w. key w == k) x xs) (distinct k)) in
        ap (λ z. z ∷ xs) same ∙ ap (λ zs. y ∷ zs) rest
    | inr m ↦
        let (z, z_in) = length-In (select (λ w. key w == key y) (x ∷ xs)) (
          subst (λ n. 1 ≤ n) (sym (count (λ w. key w == key y)))
            (counted (λ w. key w == key y) (y ∷ ys) y (inl refl) (same_key (key y) y refl))) in
        let (z_row, of_y) = In-select (λ w. key w == key y) (x ∷ xs) z z_in in
        let up = head_greatest x xs z dx z_row in
        let down = AllBelow-In (key y) ys x dy.0 m in
        let exact = key_same (key y) z of_y in
        let two = twice y ys x m (omega arith) in
        let c = count (λ w. key w == key y) in let d = distinct (key y) in absurd (omega arith)
  ]
    where
      in_tail : x ≡ y → (z : A) → In z xs → In z (y ∷ ys) → In z ys
      in_tail same z m (inr there) = there
      in_tail same z m (inl here) =
          let two = twice x xs z m (ap key (here ∙ sym same)) in
          let d = distinct (key x) in absurd (omega arith)

  -- Where the keys are distinct, all orders by the key are one.
  pub IsOrderBy-order_desc :
      (sort : List A → List A) (rows : List A)
      → IsOrderBy sort
      → IsDistinct rows
      → sort rows ≡ order_desc key rows
  IsOrderBy-order_desc sort rows law distinct = sym (
      unique (order_desc key rows) (sort rows) (order_desc-IsDescending key rows)
        (law.descends rows) (λ p. length-select-order_desc p key rows ∙ sym (law.counts rows p))
        (λ x m. law.keeps rows x (In-order_desc key rows x m))
        (λ k.
          subst (λ n. n ≤ 1) (sym (length-select-order_desc (λ x. key x == k) key rows))
            (distinct k)))
