-- ===== src/ScopeString/Tests.antt =====
-- A witness for the theorem on scope strings.
use accelerator_pack_auth_se.Prelude.{[], ◌∷◌, ◌≡◌, refl, some}
use accelerator_pack_auth_se.ScopeString.{
  join, parse_scope_string, validate_scope_list, ensure_valid_scope_entry, all_scope_chars,
  is_scope_char,
}
use accelerator_pack_auth_se.ScopeString.RoundTrip.{parse_scope_string-join}

parse_scope_string-join_example :
    parse_scope_string (some (join ("read" ∷ "write" ∷ []))) ≡ "read" ∷ "write" ∷ []
unfolding validate_scope_list ensure_valid_scope_entry all_scope_chars is_scope_char
parse_scope_string-join_example = parse_scope_string-join ("read" ∷ "write" ∷ []) refl
