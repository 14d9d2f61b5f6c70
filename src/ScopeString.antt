-- ===== src/ScopeString.antt =====
-- Scope strings: `parse_scope_string` of scopes.py with the `str.split` that it calls, the joining by
-- a space that every token path makes, and the validator of one scope entry in schemas.py.
pub mod RoundTrip
mod Tests
use Prim.Native.Char.{Char, code}
use Prim.Native.String as Text
use accelerator_pack_auth_se.Prelude.{
  ℕ, String, List, [], ◌∷◌, Bool, true, false, not, ◌&&◌, ◌||◌, Option, none, some, Result, ok, err,
  value_error, ltb, leb, ◌==◌, str_eq, ◌>>=◌, if◌then◌else◌,
}

-- The code points that Python's `str.split` treats as whitespace.
unfoldable pub is_space : ℕ → Bool
is_space c =
    leb 9 c && leb c 13
    || leb 28 c && leb c 32
    || c == 0x85
    || c == 0xa0
    || c == 0x1680
    || leb 0x2000 c && leb c 0x200a
    || c == 0x2028
    || c == 0x2029
    || c == 0x202f
    || c == 0x205f
    || c == 0x3000

abbrev with_word : String → List String → List String
with_word Text.[] rest = rest
with_word (Text.◌∷◌ c w) rest = Text.◌∷◌ c w ∷ rest

-- `word` is the word that has been read so far.
split_from : String → String → List String
split_from word Text.[] = with_word word []
split_from word (Text.◌∷◌ c s) = elim (is_space (code c)) [
  | true ↦ with_word word (split_from Text.[] s)
  | false ↦ split_from (Text.◌++◌ word (Text.◌∷◌ c Text.[])) s
]

-- `str.split()`
unfoldable pub split : String → List String
unfolding split_from is_space
split s = split_from Text.[] s

-- `" ".join(scopes)`
unfoldable pub join : List String → String
join [] = ""
join (s ∷ []) = s
join (s ∷ t ∷ rest) = Text.◌++◌ s (Text.◌∷◌ " " (join (t ∷ rest)))

-- Python's truth of an optional text: it is there and not empty.
abbrev pub text_or_empty : Option String → String
text_or_empty none = ""
text_or_empty (some s) = s

unfoldable pub parse_scope_string : Option String → List String
unfolding split
parse_scope_string raw = let text = text_or_empty raw in if str_eq text "" then [] else split text

-- `[\x21\x23-\x5B\x5D-\x7E]`
is_scope_char : ℕ → Bool
is_scope_char c = c == 0x21 || leb 0x23 c && leb c 0x5b || leb 0x5d c && leb c 0x7e

all_scope_chars : String → Bool
unfolding is_scope_char
all_scope_chars Text.[] = true
all_scope_chars (Text.◌∷◌ c s) = is_scope_char (code c) && all_scope_chars s

abbrev scope_name_max_length : ℕ
scope_name_max_length = 256

-- The entry is a text here, so the test of its type has no counterpart.
unfoldable pub ensure_valid_scope_entry : String → Result (Unit {0})
unfolding all_scope_chars
ensure_valid_scope_entry entry =
    if str_eq entry ""
    then err (value_error "scope entries must be non-empty")
    else if ltb scope_name_max_length (Text.count entry)
    then err (value_error "scope entries must be at most 256 characters")
    else if not (all_scope_chars entry)
    then err (value_error "scope entries must be RFC 6749 §3.3 VSCHAR")
    else ok tt

-- The loop of `_validate_scope_list`, and that of the validator of `LoginRequest.scope`.
unfoldable pub validate_scope_list : List String → Result (Unit {0})
validate_scope_list [] = ok tt
validate_scope_list (entry ∷ rest) =
    let later = validate_scope_list rest in ensure_valid_scope_entry entry >>= λ _. later
