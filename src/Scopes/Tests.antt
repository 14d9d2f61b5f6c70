-- ===== src/Scopes/Tests.antt =====
-- Witnesses for the theorems on scopes.
use accelerator_pack_auth_se.Prelude.{String, List, [], ◌∷◌, ◌≡◌, arith, contains}

abbrev allowed : List String
allowed = "read" ∷ "write" ∷ []

abbrev requested : List String
requested = "write" ∷ "delete" ∷ []

abbrev only_write : List String
only_write = "write" ∷ []

swapped :
    (s : String) → contains ("read" ∷ "write" ∷ []) s ≡ contains ("write" ∷ "read" ∷ "write" ∷ []) s
unfolding contains
swapped s = ground arith
