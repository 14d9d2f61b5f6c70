-- ===== src/Prelude/Results.antt =====
-- What a call of the service returns or raises, and calls that read and write the database.
use Prim.Native.Nat.{ℕ}
use Prim.Native.String.{String}
use mathlib.Core.Path.{◌≡◌, refl}

-- An `HTTPException` with its status code and detail; the errors that no handler catches are
-- answered by a status 500.
pub data Error : Type 0 where
  http : ℕ → String → Error
  integrity_error : Error
  multiple_results_found : Error
  no_result_found : Error
  value_error : String → Error
  key_error : String → Error
  type_error : Error
  -- what the database driver, the HTTP client and the regular expressions raise
  data_error : Error
  transport_error : Error
  re_error : Error

pub data Result {ℓ} (A : Type ℓ) : Type ℓ where
  ok : A → Result A
  err : Error → Result A

module _ {ℓ} {A B : Type ℓ} where
  infixl 5 ◌>>=◌ ◌>>◌
  abbrev pub ◌>>=◌ : Result A → (A → Result B) → Result B
  err error >>= rest = err error
  ok value >>= rest = rest value

  abbrev pub ◌>>◌ : Result A → Result B → Result B
  first >> second = first >>= λ value. second

pub ok-injective {ℓ} : {A : Type ℓ} (a b : A) → ok a ≡ ok b → a ≡ b
ok-injective a b h = cc

-- A sequence returns where both its parts do.
pub then-ok {ℓ} :
    {A B : Type ℓ} (r : Result A) (f : A → Result B) {b : B}
    → (r >>= f) ≡ ok b
    → (a : A) × (r ≡ ok a) × (f a ≡ ok b)
then-ok (ok a) f h = (a, refl, h)
then-ok (err e) f h = cc
