-- ===== src/StrMethods.antt =====
-- The methods of Python's `str` that the handlers call on headers. A text is lowered only to be
-- compared with a literal of ASCII letters other than `k`, so the letters A to Z are what matters.
use Prim.Native.Char.{code}
use Prim.Native.String as Text
use accelerator_pack_auth_se.Prelude.{
  ℕ, ◌+◌, String, Bool, true, false, ◌&&◌, ◌||◌, leb, ◌==◌, str_eq, Option, none, some,
  if◌then◌else◌,
}
use accelerator_pack_auth_se.ScopeString.{is_space}

-- `s.partition(c)[0]`
unfoldable pub before : ℕ → String → String
before c Text.[] = ""
before c (Text.◌∷◌ d s) = let rest = before c s in if code d == c then "" else Text.◌∷◌ d rest

-- `s.partition(c)[2]`
unfoldable pub after : ℕ → String → String
after c Text.[] = ""
after c (Text.◌∷◌ d s) = let rest = after c s in if code d == c then s else rest

-- `c in s`
unfoldable pub has_char : ℕ → String → Bool
has_char c Text.[] = false
has_char c (Text.◌∷◌ d s) = code d == c || has_char c s

strip_start : String → String
strip_start Text.[] = ""
strip_start (Text.◌∷◌ c s) =
    let rest = strip_start s in if is_space (code c) then rest else Text.◌∷◌ c s

strip_end : String → String
strip_end Text.[] = ""
strip_end (Text.◌∷◌ c s) =
    let rest = strip_end s in if str_eq rest "" && is_space (code c) then "" else Text.◌∷◌ c rest

-- `s.strip()`
unfoldable pub strip : String → String
unfolding strip_start strip_end
strip s = strip_end (strip_start s)

lower_code : ℕ → ℕ
lower_code c = if leb 65 c && leb c 90 then c + 32 else c

-- `s.lower() == literal`
unfoldable pub lower_eq : String → String → Bool
unfolding lower_code
lower_eq Text.[] Text.[] = true
lower_eq Text.[] (Text.◌∷◌ d t) = false
lower_eq (Text.◌∷◌ c s) Text.[] = false
lower_eq (Text.◌∷◌ c s) (Text.◌∷◌ d t) = lower_code (code c) == code d && lower_eq s t

-- `s.lower().startswith(literal)`
unfoldable pub lower_starts : String → String → Bool
unfolding lower_code
lower_starts s Text.[] = true
lower_starts Text.[] (Text.◌∷◌ d t) = false
lower_starts (Text.◌∷◌ c s) (Text.◌∷◌ d t) = lower_code (code c) == code d && lower_starts s t

unfoldable pub after_prefix : String → String → Option String
after_prefix Text.[] s = some s
after_prefix (Text.◌∷◌ c p) Text.[] = none
after_prefix (Text.◌∷◌ c p) (Text.◌∷◌ d s) =
    let rest = after_prefix p s in if code c == code d then rest else none

-- `s.removeprefix(prefix)`
unfoldable pub remove_prefix : String → String → String
unfolding after_prefix
remove_prefix prefix s = elim (after_prefix prefix s) [ none ↦ s | some rest ↦ rest ]

-- `s.rstrip(c)`
unfoldable pub rstrip_char : ℕ → String → String
rstrip_char c Text.[] = ""
rstrip_char c (Text.◌∷◌ d s) =
    let rest = rstrip_char c s in if str_eq rest "" && code d == c then "" else Text.◌∷◌ d rest

-- The control characters and spaces that `urlsplit` takes off the start of a URL.
lstrip_control : String → String
lstrip_control Text.[] = ""
lstrip_control (Text.◌∷◌ c s) =
    let rest = lstrip_control s in if leb (code c) 32 then rest else Text.◌∷◌ c s

-- The tabs and line ends that `urlsplit` takes out of a URL.
without_breaks : String → String
without_breaks Text.[] = ""
without_breaks (Text.◌∷◌ c s) =
    let rest = without_breaks s in
    if code c == 9 || (code c == 10 || code c == 13) then rest else Text.◌∷◌ c rest

-- `urlsplit(url).scheme.lower() == literal`, for a literal of letters; a URL whose host has unmatched
-- brackets, on which `urlsplit` raises, is not told apart.
unfoldable pub has_scheme : String → String → Bool
unfolding lstrip_control without_breaks
has_scheme url literal =
    let u = without_breaks (lstrip_control url) in has_char 58 u && lower_eq (before 58 u) literal
