-- ===== src/Decimal.antt =====
-- `str(n)` of a natural number, and `int(text)` of a text of decimal digits. The other texts that
-- `int` reads (signs, spaces, underscores, digits of other scripts) are not written by the service;
-- here they are a ValueError like every text that is no number.
use Prim.Native.Char.{Char, code}
use Prim.Native.String as Text
use Prim.Native.Nat.{◌*◌}
use accelerator_pack_auth_se.Prelude.{
  ℕ, zero, suc, ◌+◌, ◌-◌, ◌/◌, ◌%◌, ◌<◌, String, ◌≡◌, refl, true, ◌&&◌, Option, none, some, arith,
  ltb, leb, ap, ◌∙◌, Bool-cases, inl, inr, if◌then◌else◌,
}

digit : ℕ → Char
digit zero = "0"
digit (suc zero) = "1"
digit (suc (suc zero)) = "2"
digit (suc (suc (suc zero))) = "3"
digit (suc (suc (suc (suc zero)))) = "4"
digit (suc (suc (suc (suc (suc zero))))) = "5"
digit (suc (suc (suc (suc (suc (suc zero)))))) = "6"
digit (suc (suc (suc (suc (suc (suc (suc zero))))))) = "7"
digit (suc (suc (suc (suc (suc (suc (suc (suc zero)))))))) = "8"
digit _ = "9"

-- The digits of `n` in front of `rest`; `n` rounds are enough.
print_before : ℕ → ℕ → String → String
print_before zero n rest = Text.◌∷◌ (digit n) rest
print_before (suc fuel) n rest =
    let more = print_before fuel (n / 10) (Text.◌∷◌ (digit (n % 10)) rest) in
    if ltb n 10 then Text.◌∷◌ (digit n) rest else more

-- `str(n)`
unfoldable pub str : ℕ → String
unfolding print_before digit
str n = print_before n n ""

parse_from : ℕ → String → Option ℕ
parse_from n Text.[] = some n
parse_from n (Text.◌∷◌ c s) =
    let more = parse_from (n * 10 + (code c - 48)) s in
    if leb 48 (code c) && leb (code c) 57 then more else none

-- `int(text)`; `none` is a ValueError.
unfoldable pub int : String → Option ℕ
unfolding parse_from
int Text.[] = none
int (Text.◌∷◌ c s) = parse_from 0 (Text.◌∷◌ c s)

code-digit : (d : ℕ) → d < 10 → code (digit d) ≡ 48 + d
unfolding digit
code-digit zero h = refl
code-digit (suc zero) h = refl
code-digit (suc (suc zero)) h = refl
code-digit (suc (suc (suc zero))) h = refl
code-digit (suc (suc (suc (suc zero)))) h = refl
code-digit (suc (suc (suc (suc (suc zero))))) h = refl
code-digit (suc (suc (suc (suc (suc (suc zero)))))) h = refl
code-digit (suc (suc (suc (suc (suc (suc (suc zero))))))) h = refl
code-digit (suc (suc (suc (suc (suc (suc (suc (suc zero)))))))) h = refl
code-digit (suc (suc (suc (suc (suc (suc (suc (suc (suc n))))))))) h = omega arith

-- A digit in front of a text is read into the value.
parse_from-digit :
    (n d : ℕ) (rest : String)
    → d < 10
    → parse_from n (Text.◌∷◌ (digit d) rest) ≡ parse_from (n * 10 + d) rest
unfolding parse_from
parse_from-digit n d rest h =
    let in_range : (leb 48 (48 + d) && leb (48 + d) 57) ≡ true = ground arith in
    rw (code-digit d h, in_range) (ap (λ m. parse_from m rest) (omega arith))

parse_from-print :
    (fuel n : ℕ) (rest : String)
    → n < fuel + 10
    → parse_from 0 (print_before fuel n rest) ≡ parse_from n rest
unfolding print_before
parse_from-print zero n rest h =
    parse_from-digit 0 n rest (omega arith) ∙ ap (λ m. parse_from m rest) (omega arith)
parse_from-print (suc fuel) n rest h = elim (Bool-cases (ltb n 10)) [
  | inl small ↦
      rw small
        (parse_from-digit 0 n rest (ground arith) ∙ ap (λ m. parse_from m rest) (omega arith))
  | inr large ↦ rw large (
      parse_from-print fuel (n / 10) (Text.◌∷◌ (digit (n % 10)) rest) (ground arith)
      ∙ parse_from-digit (n / 10) (n % 10) rest (omega arith)
      ∙ ap (λ m. parse_from m rest) (omega arith))
]

print-int :
    (fuel n : ℕ) (rest : String)
    → int (print_before fuel n rest) ≡ parse_from 0 (print_before fuel n rest)
unfolding int print_before
print-int zero n rest = refl
print-int (suc fuel) n rest = elim (Bool-cases (ltb n 10)) [
  | inl small ↦ rw small
  | inr large ↦ rw large (print-int fuel (n / 10) (Text.◌∷◌ (digit (n % 10)) rest))
]

-- Printing a number and reading it back gives the number.
pub int-str : (n : ℕ) → int (str n) ≡ some n
unfolding str
int-str n = print-int n n "" ∙ parse_from-print n n "" (omega arith) ∙ unfold parse_from in refl
