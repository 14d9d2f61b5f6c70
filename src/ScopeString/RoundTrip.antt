-- ===== src/ScopeString/RoundTrip.antt =====
-- Joining scope entries and parsing the joined text again.
use Prim.Native.Char.{code}
use Prim.Native.String as Text
use text.Mathlib.TextLemmas.{append-nil, append_assoc, cons-append, nil-append}
use accelerator_pack_auth_se.Prelude.{
  ℕ, String, List, [], ◌∷◌, ◌≡◌, refl, ap, sym, ◌∙◌, true, false, some, ok, arith, Bool-cases, inl,
  inr, str_eq, eq_iff,
}
use accelerator_pack_auth_se.ScopeString.{
  is_space, with_word, split_from, split, join, parse_scope_string, is_scope_char, all_scope_chars,
  ensure_valid_scope_entry, validate_scope_list,
}

scope_char-not_space : (c : ℕ) → is_scope_char c ≡ true → is_space c ≡ false
unfolding is_scope_char is_space
scope_char-not_space c h = ground arith

split_from-word :
    (word s rest : String)
    → all_scope_chars s ≡ true
    → split_from word (Text.◌++◌ s rest) ≡ split_from (Text.◌++◌ word s) rest
unfolding all_scope_chars split_from
split_from-word word Text.[] rest h = rw (nil-append rest, append-nil word)
split_from-word word (Text.◌∷◌ c s) rest h =
    rw (cons-append c s rest, scope_char-not_space (code c) (ground arith), split_from)
      (split_from-word (Text.◌++◌ word (Text.◌∷◌ c Text.[])) s rest (ground arith)
        ∙ ap (λ w. split_from w rest)
            (append_assoc word (Text.◌∷◌ c Text.[]) s
              ∙ ap (Text.◌++◌ word) (cons-append c Text.[] s ∙ ap (Text.◌∷◌ c) (nil-append s))))

with_word-cons :
    (s : String) (rest : List String) → str_eq s "" ≡ false → with_word s rest ≡ s ∷ rest
with_word-cons Text.[] rest h = cc
with_word-cons (Text.◌∷◌ c s) rest h = refl

valid_entry :
    (s : String)
    → ensure_valid_scope_entry s ≡ ok tt
    → (str_eq s "" ≡ false) × (all_scope_chars s ≡ true)
unfolding ensure_valid_scope_entry
valid_entry s v = ground arith

-- A valid entry is a word, on its own and in front of a space.
split-entry : (s : String) → ensure_valid_scope_entry s ≡ ok tt → split s ≡ s ∷ []
unfolding split
split-entry s v =
    let (nonempty, chars) = valid_entry s v in
    ap (split_from Text.[]) (sym (append-nil s))
    ∙ split_from-word Text.[] s Text.[] chars
    ∙ ap (λ w. split_from w Text.[]) (nil-append s)
    ∙ with_word-cons s [] nonempty

split-entry_before :
    (s rest : String)
    → ensure_valid_scope_entry s ≡ ok tt
    → split (Text.◌++◌ s (Text.◌∷◌ " " rest)) ≡ s ∷ split rest
unfolding split
split-entry_before s rest v =
    let (nonempty, chars) = valid_entry s v in
    split_from-word Text.[] s (Text.◌∷◌ " " rest) chars
    ∙ ap (λ w. split_from w (Text.◌∷◌ " " rest)) (nil-append s)
    ∙ with_word-cons s (split_from Text.[] rest) nonempty

validate-cons :
    (s : String) (rest : List String)
    → validate_scope_list (s ∷ rest) ≡ ok tt
    → (ensure_valid_scope_entry s ≡ ok tt) × (validate_scope_list rest ≡ ok tt)
unfolding validate_scope_list
validate-cons s rest v = ground arith

split-join :
    (scopes : List String) → validate_scope_list scopes ≡ ok tt → split (join scopes) ≡ scopes
unfolding join
split-join [] v = unfold split in refl
split-join (s ∷ []) v = split-entry s (validate-cons s [] v).0
split-join (s ∷ t ∷ rest) v =
    split-entry_before s (join (t ∷ rest)) (validate-cons s (t ∷ rest) v).0
    ∙ ap (◌∷◌ s) (split-join (t ∷ rest) (validate-cons s (t ∷ rest) v).1)

-- Valid scopes that were joined by spaces are parsed back, in order and with repetitions.
pub parse_scope_string-join :
    (scopes : List String)
    → validate_scope_list scopes ≡ ok tt
    → parse_scope_string (some (join scopes)) ≡ scopes
unfolding parse_scope_string
parse_scope_string-join scopes v = elim (Bool-cases (str_eq (join scopes) "")) [
  | inl blank ↦
      rw (blank) (ap split (sym ((eq_iff (join scopes) "").0 blank)) ∙ split-join scopes v)
  | inr text ↦ rw (text) (split-join scopes v)
]
