-- ===== src/Prelude/Text.antt =====
-- Membership of texts in lists, and Python's `sorted` on a list of texts.
use Prim.Native.String.{String, compare}
use mathlib.Core.Path.{◌≡◌, refl, ap, sym, ◌∙◌}
use mathlib.Core.Logic.{inl, inr}
use mathlib.Core.Bool.{Bool, true, false, ◌&&◌, ◌||◌, not}
use mathlib.Core.List.{List, [], ◌∷◌, ◌++◌}
use native.Mathlib.Omega.{arith}
use text.Mathlib.Text.{◌==◌ as str_eq, is_lt}
use text.Mathlib.TextEquality.{eq_iff}
use accelerator_pack_auth_se.Prelude.Tests.{if◌then◌else◌, Bool-cases}
use accelerator_pack_auth_se.Prelude.Lists.{select, is_empty, any}

pub eq_refl : (s : String) → str_eq s s ≡ true
eq_refl s = (eq_iff s s).1 refl

-- Python's `s in xs`.
unfoldable pub contains : List String → String → Bool
contains [] s = false
contains (x ∷ xs) s = str_eq x s || contains xs s

-- The elements of a `set(xs)`, each once, at its last place.
unfoldable pub dedup : List String → List String
unfolding contains
dedup [] = []
dedup (x ∷ xs) = let rest = dedup xs in if contains xs x then rest else x ∷ rest

unfoldable pub insert_sorted : String → List String → List String
insert_sorted s [] = s ∷ []
insert_sorted s (x ∷ xs) =
    let rest = insert_sorted s xs in if is_lt (compare x s) then x ∷ rest else s ∷ x ∷ xs

-- Python's `sorted`, by code points.
unfoldable pub sorted : List String → List String
unfolding insert_sorted
sorted [] = []
sorted (x ∷ xs) = insert_sorted x (sorted xs)

-- The elements of `set(xs) - set(ys)`.
unfoldable pub difference : List String → List String → List String
unfolding contains dedup
difference xs ys = select (λ s. not (contains ys s)) (dedup xs)

pub contains-append :
    (xs ys : List String) (s : String) → contains (xs ++ ys) s ≡ (contains xs s || contains ys s)
unfolding contains
contains-append [] ys s = refl
contains-append (x ∷ xs) ys s = ground (arith, contains-append xs ys s)

pub contains-select :
    (p : String → Bool) (xs : List String) (s : String)
    → contains (select p xs) s ≡ (contains xs s && p s)
unfolding contains select
contains-select p [] s = refl
contains-select p (x ∷ xs) s = ground (arith, contains-select p xs s, eq_iff x s)

pub contains-dedup : (xs : List String) (s : String) → contains (dedup xs) s ≡ contains xs s
unfolding contains dedup
contains-dedup [] s = refl
contains-dedup (x ∷ xs) s = ground (arith, contains-dedup xs s, eq_iff x s)

pub contains-insert_sorted :
    (x : String) (xs : List String) (s : String)
    → contains (insert_sorted x xs) s ≡ (str_eq x s || contains xs s)
unfolding contains insert_sorted
contains-insert_sorted x [] s = refl
contains-insert_sorted x (y ∷ ys) s = ground (arith, contains-insert_sorted x ys s)

pub contains-sorted : (xs : List String) (s : String) → contains (sorted xs) s ≡ contains xs s
unfolding sorted contains
contains-sorted [] s = refl
contains-sorted (x ∷ xs) s =
    ground (arith, contains-insert_sorted x (sorted xs) s, contains-sorted xs s)

pub contains-difference :
    (xs ys : List String) (s : String)
    → contains (difference xs ys) s ≡ (contains xs s && not (contains ys s))
unfolding difference
contains-difference xs ys s =
    ground (arith, contains-select (λ t. not (contains ys t)) (dedup xs) s, contains-dedup xs s)

pub is_empty-select :
    (p : String → Bool) (xs : List String) (s : String)
    → is_empty (select p xs) ≡ true
    → contains xs s ≡ true
    → p s ≡ false
unfolding contains select
is_empty-select p [] s e h = cc
is_empty-select p (x ∷ xs) s e h = ground (arith, is_empty-select p xs s, eq_iff x s)

-- A list has a member or is empty.
pub is_empty-contains :
    (xs : List String) → ((s : String) → contains xs s ≡ false) → is_empty xs ≡ true
unfolding contains
is_empty-contains [] h = refl
is_empty-contains (x ∷ xs) h = ground (arith, h x, eq_iff x x)

pub is_empty-select-any :
    (p : String → Bool) (xs : List String) → is_empty (select p xs) ≡ not (any p xs)
unfolding select any
is_empty-select-any p [] = refl
is_empty-select-any p (x ∷ xs) = ground (arith, is_empty-select-any p xs)

any_of_contains :
    (p : String → Bool) (xs : List String) (s : String)
    → contains xs s ≡ true
    → p s ≡ true
    → any p xs ≡ true
unfolding contains any
any_of_contains p [] s m h = cc
any_of_contains p (x ∷ xs) s m h = ground (arith, any_of_contains p xs s, eq_iff x s)

any-dedup : (p : String → Bool) (xs : List String) → any p (dedup xs) ≡ any p xs
unfolding dedup any
any-dedup p [] = refl
any-dedup p (x ∷ xs) = ground (arith, any-dedup p xs, any_of_contains p xs x)

-- A difference is empty when every element is in the other list.
pub is_empty-difference :
    (xs ys : List String) → is_empty (difference xs ys) ≡ not (any (λ s. not (contains ys s)) xs)
unfolding difference
is_empty-difference xs ys =
    is_empty-select-any (λ s. not (contains ys s)) (dedup xs)
    ∙ ap not (any-dedup (λ s. not (contains ys s)) xs)

any-witness :
    (p : String → Bool) (xs : List String)
    → any p xs ≡ true
    → (s : String) × (contains xs s ≡ true) × (p s ≡ true)
unfolding contains any
any-witness p [] h = cc
any-witness p (x ∷ xs) h = elim (Bool-cases (p x)) [
  | inl here ↦ (x, ground (arith, eq_refl x), here)
  | inr later ↦ let (s, m, q) = any-witness p xs (ground arith) in (s, ground arith, q)
]

any-le :
    (p : String → Bool) (xs ys : List String)
    → ((s : String) → contains xs s ≡ contains ys s)
    → any p xs ≡ true
    → any p ys ≡ true
any-le p xs ys same h =
    let (s, m, q) = any-witness p xs h in any_of_contains p ys s (sym (same s) ∙ m) q

-- Lists with the same elements pass the same tests.
pub any-same :
    (p : String → Bool) (xs ys : List String)
    → ((s : String) → contains xs s ≡ contains ys s)
    → any p xs ≡ any p ys
any-same p xs ys same = elim (Bool-cases (any p xs)) [
  | inl h ↦ h ∙ sym (any-le p xs ys same h)
  | inr h ↦ elim (Bool-cases (any p ys)) [
    | inl k ↦ cc (any-le p ys xs (λ s. sym (same s)) k)
    | inr k ↦ h ∙ sym k
  ]
]

-- Lists with the same elements are both empty or both not.
pub is_empty-same :
    (xs ys : List String)
    → ((s : String) → contains xs s ≡ contains ys s)
    → is_empty xs ≡ is_empty ys
unfolding contains
is_empty-same [] [] same = refl
is_empty-same [] (y ∷ ys) same = cc (same y, eq_refl y)
is_empty-same (x ∷ xs) [] same = cc (same x, eq_refl x)
is_empty-same (x ∷ xs) (y ∷ ys) same = refl

pub is_empty-none : (xs : List String) (s : String) → is_empty xs ≡ true → contains xs s ≡ false
unfolding contains
is_empty-none [] s e = refl
is_empty-none (x ∷ xs) s e = cc

pub sorted-empty : (xs : List String) → is_empty xs ≡ true → sorted xs ≡ []
unfolding sorted
sorted-empty [] h = refl
sorted-empty (x ∷ xs) h = cc

pub is_empty-nil : (xs : List String) → is_empty xs ≡ true → xs ≡ []
is_empty-nil [] h = refl
is_empty-nil (x ∷ xs) h = cc
