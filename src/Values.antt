-- ===== src/Values.antt =====
-- JSON values and dictionaries as the service reads them: request bodies, the configuration of an
-- identity provider, the claims of a foreign token. Of a list the code reads the elements by `str`;
-- of a number, a Boolean or a dictionary only its truth and its `str`.
use accelerator_pack_auth_se.Prelude.{
  ℕ, String, List, [], ◌∷◌, Bool, false, not, ◌==◌, Option, none, some, str_eq, is_empty,
  if◌then◌else◌, ◌≡◌, refl, arith, eq_iff, is_some, Result, ok, err, type_error,
}
use accelerator_pack_auth_se.Decimal.{str}

pub data Value : Type 0 where
  null : Value
  text : String → Value
  number : ℕ → Value
  -- the elements, each by its `str`, and the `str` of the list
  list : List String → String → Value
  -- the truth of the value and its `str`
  other : Bool → String → Value

abbrev pub Dict : Type 0
Dict = List (String × Value)

-- Python's truth of a value.
abbrev pub truthy : Value → Bool
truthy null = false
truthy (text s) = not (str_eq s "")
truthy (number n) = not (n == 0)
truthy (list elements shown) = not (is_empty elements)
truthy (other b shown) = b

-- `str(value)`
abbrev pub str_of : Value → String
str_of null = "None"
str_of (text s) = s
str_of (number n) = str n
str_of (list elements shown) = shown
str_of (other b shown) = shown

-- A value where the code needs a text: any other raises.
abbrev pub as_text : Value → Result String
as_text (text s) = ok s
as_text _ = err type_error

-- Python's `a or b`.
abbrev pub or_value : Value → Value → Value
or_value a b = if truthy a then a else b

-- `d.get(key)`; the keys of a dictionary are distinct, so the first entry is the only one.
unfoldable pub find : Dict → String → Option Value
find [] key = none
find ((k, v) ∷ d) key = if str_eq k key then some v else find d key

abbrev pub or_null : Option Value → Value
or_null none = null
or_null (some v) = v

unfoldable pub get : Dict → String → Value
unfolding find
get d key = or_null (find d key)

-- `d.get(key, default)`
unfoldable pub get_or : Dict → String → Value → Value
unfolding find
get_or d key default = elim (find d key) [ none ↦ default | some v ↦ v ]

-- `key in d`
unfoldable pub has_entry : Dict → String → Bool
unfolding find
has_entry d key = is_some (find d key)

-- `d.setdefault(key, value)`
unfoldable pub setdefault : Dict → String → Value → Dict
setdefault [] key value = (key, value) ∷ []
setdefault ((k, v) ∷ d) key value =
    let rest = setdefault d key value in if str_eq k key then (k, v) ∷ d else (k, v) ∷ rest

-- The loop `for key, value in extra.items(): d.setdefault(key, value)`.
unfoldable pub add_missing : Dict → Dict → Dict
unfolding setdefault
add_missing d [] = d
add_missing d ((key, value) ∷ extra) = add_missing (setdefault d key value) extra

pub find-setdefault :
    (d : Dict) (key : String) (value : Value) (k : String)
    → find (setdefault d key value) k
      ≡ (if is_some (find d k) then find d k else if str_eq key k then some value else none)
unfolding find setdefault
find-setdefault [] key value k = refl
find-setdefault ((j, v) ∷ d) key value k =
    ground (arith, find-setdefault d key value k, eq_iff j key, eq_iff j k, eq_iff key k)

-- What was there is not overridden, and what was not there is the first value that `extra` has.
pub find-add_missing :
    (d extra : Dict) (k : String)
    → find (add_missing d extra) k ≡ (if is_some (find d k) then find d k else find extra k)
unfolding add_missing find
find-add_missing d [] k = elim_found (find d k)
  where
    elim_found : (o : Option Value) → o ≡ (if is_some o then o else none)
    elim_found none = refl
    elim_found (some v) = refl
find-add_missing d ((key, value) ∷ extra) k =
    ground (arith, find-add_missing (setdefault d key value) extra k, find-setdefault d key value k)
