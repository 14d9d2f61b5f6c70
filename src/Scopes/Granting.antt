-- ===== src/Scopes/Granting.antt =====
-- What `grant_scopes` grants and when it refuses.
use accelerator_pack_auth_se.Prelude.{
  String, List, ◌≡◌, Bool, true, not, ◌&&◌, ◌||◌, arith, contains, contains-select,
  contains-difference, difference, select, is_empty, is_empty-none, any, is_empty-difference,
  is_empty-select-any, if◌then◌else◌, Option, some, none, fun_ext, is_empty-same, any-same,
}
use accelerator_pack_auth_se.Scopes.{Grant, granted, invalid_scope, grant_scopes, missing_message}

-- A scope is granted exactly when it is allowed and the request names it or is empty. A grant to a
-- request that is not empty grants something; in strict mode it grants all that was requested.
pub grant_scopes-granted :
    (allowed requested issued : List String) (strict : Bool)
    → grant_scopes allowed requested strict ≡ granted issued
    → ((s : String)
        → contains issued s ≡ (contains allowed s && (is_empty requested || contains requested s)))
      × ((is_empty requested || not (is_empty issued)) ≡ true)
      × ((s : String) → (not (strict && contains requested s) || contains issued s) ≡ true)
unfolding grant_scopes
grant_scopes-granted allowed requested issued strict g = (
  (λ s. ground (arith, contains-select (contains requested) allowed s)),
  ground arith,
  λ s. ground (
    arith,
    contains-select (contains requested) allowed s,
    is_empty-none (difference requested allowed) s,
    contains-difference requested allowed s,
    is_empty-none requested s,
  ),
)

-- The request names a scope, and either none that is allowed, or, in strict mode, one that is not.
abbrev pub refuses : List String → List String → Bool → Bool
refuses allowed requested strict =
    not (is_empty requested)
    && (not (any (contains requested) allowed)
        || strict && any (λ s. not (contains allowed s)) requested)

-- `grant_scopes` raises exactly when the request is one to refuse; otherwise it grants all that is
-- allowed to an empty request, and to another one the allowed scopes that it names, in the order
-- of the allowed ones.
pub grant_scopes-cases :
    (allowed requested : List String) (strict : Bool)
    → grant_scopes allowed requested strict ≡ (
        if refuses allowed requested strict
        then invalid_scope (missing_message (difference requested allowed))
        else granted (if is_empty requested then allowed else select (contains requested) allowed))
unfolding grant_scopes
grant_scopes-cases allowed requested strict =
    ground (
      arith,
      is_empty-difference requested allowed,
      is_empty-select-any (contains requested) allowed,
    )

-- What a call grants, with the message of a refusal forgotten.
abbrev pub issued_by : Grant → Option (List String)
issued_by (granted scopes) = some scopes
issued_by (invalid_scope message) = none

-- Two requests for the same scopes, in whatever order and however often each is named, are granted
-- the same list, or are both refused.
pub grant_scopes-order :
    (allowed requested other : List String) (strict : Bool)
    → ((s : String) → contains requested s ≡ contains other s)
    → issued_by (grant_scopes allowed requested strict)
      ≡ issued_by (grant_scopes allowed other strict)
grant_scopes-order allowed requested other strict same =
    rw (grant_scopes-cases allowed requested strict, grant_scopes-cases allowed other strict)
      (rw (fun_ext same) (
        ground (
          arith,
          is_empty-same requested other same,
          any-same (λ s. not (contains allowed s)) requested other same,
        )))
