-- ===== src/Scopes/Effective.antt =====
-- The scopes that a principal may hold: the union with the assigned roles, the override, and the
-- wildcard, which is expanded before a token is written.
use mathlib.Core.List.{map-append}
use accelerator_pack_auth_se.Prelude.{
  ℕ, String, List, [], ◌∷◌, ◌++◌, ◌≡◌, refl, ap, sym, ◌∙◌, true, false, ◌||◌, map, flat_map, arith,
  str_eq, contains, contains-append, contains-sorted, contains-difference, contains-dedup,
  difference, dedup, sorted, select, is_empty, any, append-nil, is_empty-nil, Bool-cases, inl, inr,
}
use accelerator_pack_auth_se.External.{JsonCodec}
use accelerator_pack_auth_se.Models.{role_value}
use accelerator_pack_auth_se.Models.Rows.{User, ServiceAccount, Permission}
use accelerator_pack_auth_se.Models.Database.{Database}
use accelerator_pack_auth_se.PackModels.{PackAuthModel, permissions_for_role}
use accelerator_pack_auth_se.PackModels.Registry.{
  load_active_model, load_active_model-valid, load_active_model-declared,
}
use accelerator_pack_auth_se.ScopeString.{text_or_empty}
use accelerator_pack_auth_se.Scopes.{
  scope_wildcard, resolve_account_scopes, resolve_user_scopes, assigned_permissions, add_extras,
  fetch_user_role_permissions, resolve_effective_user_scopes,
}

add_extras_lem :
    (base extra : List String) → add_extras base extra ≡ base ++ sorted (difference extra base)
unfolding add_extras
add_extras_lem base [] = unfold difference dedup select sorted in sym (append-nil base)
add_extras_lem base (x ∷ extra) =
    elim (Bool-cases (is_empty (sorted (difference (x ∷ extra) base)))) [
      | inl none_new ↦
          rw (none_new) (sym (ap (◌++◌ base) (is_empty-nil _ none_new) ∙ append-nil base))
      | inr some_new ↦ rw some_new
    ]

-- Without an override, a user's scopes are the expansion of the role in its order, followed by those
-- that only assigned roles give, sorted; a scope is among them exactly when the role or an assigned
-- role gives it.
pub resolve_effective_user_scopes-union :
    (json : JsonCodec) (db : Database) (user : User) (pack : PackAuthModel)
    → text_or_empty user.allowed_scopes ≡ ""
    → let base = permissions_for_role pack (role_value user.role) in
      let extra = fetch_user_role_permissions db user.id in
      let scopes = resolve_effective_user_scopes json db user pack in
      (scopes ≡ base ++ sorted (difference extra base))
      × ((s : String) → contains scopes s ≡ (contains base s || contains extra s))
unfolding resolve_effective_user_scopes resolve_user_scopes
resolve_effective_user_scopes-union json db user pack plain =
    let base = permissions_for_role pack (role_value user.role) in
    let extra = fetch_user_role_permissions db user.id in
    rw plain (
      add_extras_lem base extra,
      λ s. rw (add_extras_lem base extra) (
          ground (
            arith,
            contains-append base (sorted (difference extra base)) s,
            contains-sorted (difference extra base) s,
            contains-difference extra base s,
          )),
    )

-- Rows that are all one permission have no codename but its own.
Only : Permission → String → List Permission → Type 0
Only p s xs = contains (map (λ q. q.codename) xs) s ≡ true → str_eq p.codename s ≡ true

Only-repeat {ℓ} :
    {A : Type ℓ} (p : Permission) (s : String) (xs : List A) → Only p s (map (λ x. p) xs)
unfolding Only contains
Only-repeat p s [] h = cc
Only-repeat p s (x ∷ xs) h = ground (arith, Only-repeat p s xs)

Only-flat_map {ℓ} :
    {A : Type ℓ} (p : Permission) (s : String) (f : A → List Permission) (xs : List A)
    → ((x : A) → Only p s (f x))
    → Only p s (flat_map f xs)
unfolding Only contains flat_map
Only-flat_map p s f [] each h = cc
Only-flat_map p s f (x ∷ xs) each h = ground (
  arith,
  map-append (λ (q : Permission). q.codename) (f x) (flat_map f xs),
  contains-append (map (λ q. q.codename) (f x)) (map (λ q. q.codename) (flat_map f xs)) s,
  each x,
  Only-flat_map p s f xs each,
)

contains-flat_map :
    (s : String) (f : Permission → List Permission) (ps : List Permission)
    → ((p : Permission) → Only p s (f p))
    → contains (map (λ q. q.codename) (flat_map f ps)) s ≡ true
    → any (λ p. str_eq p.codename s) ps ≡ true
unfolding contains flat_map any Only
contains-flat_map s f [] each h = cc
contains-flat_map s f (p ∷ ps) each h = ground (
  arith,
  map-append (λ (q : Permission). q.codename) (f p) (flat_map f ps),
  contains-append (map (λ q. q.codename) (f p)) (map (λ q. q.codename) (flat_map f ps)) s,
  each p,
  contains-flat_map s f ps each,
)

-- A scope that the assigned roles give is the codename of a permission in the table.
pub fetch_user_role_permissions-known :
    (db : Database) (user_id : ℕ) (s : String)
    → contains (fetch_user_role_permissions db user_id) s ≡ true
    → any (λ p. str_eq p.codename s) db.permissions.rows ≡ true
unfolding fetch_user_role_permissions assigned_permissions
fetch_user_role_permissions-known db user_id s h =
    contains-flat_map s _ db.permissions.rows
      (λ p. Only-flat_map p s _ _ λ rp. Only-flat_map p s _ _ λ r. Only-repeat p s _)
      (sym (contains-dedup _ s) ∙ h)

role_scopes-wildcard :
    (pack_id role : String)
    → contains (permissions_for_role (load_active_model pack_id) role) scope_wildcard ≡ false
role_scopes-wildcard pack_id role =
    elim (Bool-cases
      (contains (permissions_for_role (load_active_model pack_id) role) scope_wildcard)) [
        | inl h ↦ absurd ((load_active_model-declared pack_id role scope_wildcard h).1 refl)
        | inr h ↦ h
      ]

user_scopes-wildcard :
    (json : JsonCodec) (user : User) (pack_id : String)
    → contains (resolve_user_scopes json user (load_active_model pack_id)) scope_wildcard ≡ false
unfolding resolve_user_scopes
user_scopes-wildcard json user pack_id =
    ground (arith, role_scopes-wildcard pack_id (role_value user.role))

-- Whatever pack is active, and unless a permission of that name was made in the table, the wildcard
-- is never among a user's scopes, also for a user whose override is the wildcard.
pub resolve_effective_user_scopes-wildcard :
    (json : JsonCodec) (db : Database) (user : User) (pack_id : String)
    → any (λ p. str_eq p.codename scope_wildcard) db.permissions.rows ≡ false
    → contains
        (resolve_effective_user_scopes json db user (load_active_model pack_id))
        scope_wildcard
      ≡ false
unfolding resolve_effective_user_scopes
resolve_effective_user_scopes-wildcard json db user pack_id none_such =
    let base = resolve_user_scopes json user (load_active_model pack_id) in
    let extra = fetch_user_role_permissions db user.id in
    ground (
      arith,
      user_scopes-wildcard json user pack_id,
      add_extras_lem base extra,
      fetch_user_role_permissions-known db user.id scope_wildcard,
      contains-append base (sorted (difference extra base)) scope_wildcard,
      contains-sorted (difference extra base) scope_wildcard,
      contains-difference extra base scope_wildcard,
    )

-- `resolve_principal_scopes` never gives a service account the wildcard.
pub resolve_account_scopes-wildcard :
    (json : JsonCodec) (account : ServiceAccount) (pack_id : String)
    → contains (resolve_account_scopes json account (load_active_model pack_id)) scope_wildcard
      ≡ false
unfolding resolve_account_scopes
resolve_account_scopes-wildcard json account pack_id =
    ground (arith, load_active_model-valid pack_id)
