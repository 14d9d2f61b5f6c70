-- ===== src/Queries.antt =====
-- The queries of the handlers that read one row or an ordered list, and the foreign keys, which the
-- database is taken to enforce as models.py declares them.
use Prim.Native.String.{compare}
use text.Mathlib.Text.{is_lt}
use accelerator_pack_auth_se.Prelude.{
  ℕ, String, List, [], ◌∷◌, Bool, true, false, Option, none, some, Result, ok, err, ◌==◌, ltb, any,
  select, if◌then◌else◌, refl,
}
use accelerator_pack_auth_se.Exec.{Exec, IsReader}
use accelerator_pack_auth_se.Table.{Table, scalar_one_or_none}
use accelerator_pack_auth_se.Models.Database.{Database}

-- `(await db.execute(select(A).where(…))).scalar_one_or_none()`
unfoldable pub one_where :
    {A : Type 0} → (Database → Table A) → (A → Bool) → Exec Database (Option A)
one_where table test db = (scalar_one_or_none (select test (table db).rows), db)

pub one_where-IsReader :
    {A : Type 0} (table : Database → Table A) (test : A → Bool) → IsReader (one_where table test)
unfolding one_where
one_where-IsReader table test s = refl

-- A transaction: a call that raises is rolled back.
abbrev pub rolled_back : {S A : Type 0} → S → Result A × S → Result A × S
rolled_back before (ok a, after) = (ok a, after)
rolled_back before (err e, after) = (err e, before)

unfoldable pub transaction : {S A : Type 0} → Exec S A → Exec S A
transaction m s = rolled_back s (m s)

module _ {A : Type 0} where
  insert_asc : (A → A → Bool) → A → List A → List A
  insert_asc before x [] = x ∷ []
  insert_asc before x (y ∷ ys) =
      let rest = insert_asc before x ys in if before y x then y ∷ rest else x ∷ y ∷ ys

  order_asc : (A → A → Bool) → List A → List A
  unfolding insert_asc
  order_asc before [] = []
  order_asc before (x ∷ xs) = insert_asc before x (order_asc before xs)

  -- `ORDER BY key` of a number.
  unfoldable pub order_by : (A → ℕ) → List A → List A
  unfolding order_asc
  order_by key = order_asc (λ a b. ltb (key a) (key b))

  -- `ORDER BY key` of a text, by code points.
  unfoldable pub order_text : (A → String) → List A → List A
  unfolding order_asc
  order_text key = order_asc (λ a b. is_lt (compare (key a) (key b)))

-- A nullable foreign key: NULL, or the key of a row.
abbrev pub refers : {A : Type 0} → (A → ℕ) → List A → Option ℕ → Bool
refers id rows none = true
refers id rows (some k) = any (λ row. id row == k) rows

-- `column == value` of a nullable column: NULL is compared by `IS NULL`.
abbrev pub same_key : Option ℕ → Option ℕ → Bool
same_key none none = true
same_key none (some b) = false
same_key (some a) none = false
same_key (some a) (some b) = a == b
