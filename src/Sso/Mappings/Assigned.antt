-- ===== src/Sso/Mappings/Assigned.antt =====
-- What a login adds to the roles of users by the claim mappings of its provider.
use accelerator_pack_auth_se.Prelude.{
  ℕ, String, List, [], ◌∷◌, ◌++◌, ◌≡◌, refl, ap, sym, subst, ◌∙◌, ◌≤◌, Bool, true, false, ◌&&◌,
  ◌||◌, Option, none, some, Result, ok, err, arith, ◌==◌, ==_refl, str_eq, select, any, head?,
  length, is_some, Bool-cases, inl, inr, if◌then◌else◌,
}
use accelerator_pack_auth_se.Prelude as Result
use accelerator_pack_auth_se.Exec.{pure, ◌>>=◌, bind-goes}
use accelerator_pack_auth_se.Table.Laws.{any-order_desc, any-select_both}
use accelerator_pack_auth_se.Values.{Dict, get}
use accelerator_pack_auth_se.Models.{Time}
use accelerator_pack_auth_se.Models.Rows.{User}
use accelerator_pack_auth_se.Models.Federation.{ClaimRoleMapping}
use accelerator_pack_auth_se.Models.Database.{Database}
use accelerator_pack_auth_se.Queries.{transaction, rolled_back}
use accelerator_pack_auth_se.Sso.Mappings.{
  claim_values, matches_any, assign_mapped, apply_mapping, apply_mappings, provider_mappings,
  apply_claim_mappings, found_in,
}
use accelerator_pack_auth_se.Sso.Mappings.Held.{
  holds, IsKeyed, Gains, Gains-nothing, assign_mapped-Gains,
}

abbrev is_true : Option Bool → Bool
is_true none = false
is_true (some b) = b

in_turn :
    (is_regex : Bool) (o : Option Bool) (equal later : Bool)
    → is_some o ≡ true
    → Result.◌>>=◌
        (if is_regex then found_in o else ok equal)
        (λ matched. if matched then ok true else ok later)
      ≡ ok ((if is_regex then is_true o else equal) || later)
in_turn true none equal later h = cc
in_turn true (some true) equal later h = refl
in_turn true (some false) equal later h = refl
in_turn false o true later h = refl
in_turn false o false later h = refl

module _ (re_search : String → String → Option Bool) where
  -- The patterns of mappings are well formed.
  abbrev pub AreWellFormed : List ClaimRoleMapping → Type 0
  AreWellFormed [] = Unit
  AreWellFormed (m ∷ ms) =
      ((s : String) → is_some (re_search m.claim_value_pattern s) ≡ true) × AreWellFormed ms

  -- The text is what the mapping asks for: its pattern is found in it, or it is its pattern.
  abbrev pub matches_text : ClaimRoleMapping → String → Bool
  matches_text m s =
      if m.is_regex
      then is_true (re_search m.claim_value_pattern s)
      else str_eq s m.claim_value_pattern

  -- Some value of the claim that the mapping names is what it asks for.
  abbrev pub matches_claims : Dict → ClaimRoleMapping → Bool
  matches_claims claims m = any (matches_text m) (claim_values (get claims m.claim_key))

  matches_any-returns :
      (m : ClaimRoleMapping) (values : List String)
      → ((s : String) → is_some (re_search m.claim_value_pattern s) ≡ true)
      → matches_any re_search m values ≡ ok (any (matches_text m) values)
  unfolding matches_any any
  matches_any-returns m [] formed = refl
  matches_any-returns m (s ∷ values) formed = rw (matches_any-returns m values formed) (
      in_turn m.is_regex (re_search m.claim_value_pattern s) (str_eq s m.claim_value_pattern)
        (any (matches_text m) values) (formed s))

  apply_mapping-Gains :
      (user_id : ℕ) (claims : Dict) (now : Time) (m : ClaimRoleMapping) (db : Database)
      → ((s : String) → is_some (re_search m.claim_value_pattern s) ≡ true)
      → IsKeyed user_id db
      → Gains user_id
          (λ r. m.role_id == r && matches_claims claims m)
          db
          (apply_mapping re_search user_id claims now m db)
  unfolding apply_mapping
  apply_mapping-Gains user_id claims now m db formed keyed =
      rw (matches_any-returns m (claim_values (get claims m.claim_key)) formed)
        (one (matches_claims claims m))
    where
      one :
          (b : Bool)
          → Gains user_id
              (λ r. m.role_id == r && b)
              db
              ((if b then assign_mapped user_id m.role_id now else pure []) db)
      one true =
          let (names, more, gained) = assign_mapped-Gains user_id m.role_id now db keyed in
          (names, more, λ u r. gained u r ∙ ground arith)
      one false =
          let (names, more, gained) = Gains-nothing user_id [] db keyed in
          (names, more, λ u r. gained u r ∙ ground arith)

  apply_mappings-Gains :
      (user_id : ℕ) (claims : Dict) (now : Time) (ms : List ClaimRoleMapping) (db : Database)
      → AreWellFormed ms
      → IsKeyed user_id db
      → Gains user_id
          (λ r. any (λ m. m.role_id == r && matches_claims claims m) ms)
          db
          (apply_mappings re_search user_id claims now ms db)
  unfolding apply_mappings any
  apply_mappings-Gains user_id claims now [] db formed keyed = Gains-nothing user_id [] db keyed
  apply_mappings-Gains user_id claims now (m ∷ ms) db formed keyed =
      let first = apply_mapping re_search user_id claims now m in
      let rest = λ (names : List String).
        apply_mappings re_search user_id claims now ms >>= λ later. pure (names ++ later) in
      let ((names, returned), more, gained) =
        apply_mapping-Gains user_id claims now m db formed.0 keyed in
      let ((later, then_returned), all, then_gained) =
        apply_mappings-Gains user_id claims now ms (first db).1 formed.1 more in
      subst (Gains user_id _ db)
        (sym (
            bind-goes (apply_mappings re_search user_id claims now ms) _ (first db).1 later
              then_returned)
          ∙ sym (bind-goes first rest db names returned))
        ((_, refl), all, λ u r. then_gained u r ∙ ground (arith, gained u r))

  -- The claims of a login give its user, beside the roles that the user has, every role that some
  -- mapping of the provider names whose claim has a value that the mapping asks for, whatever the
  -- order of priority, and give no other user a role; the call returns. The condition is that the
  -- patterns of the provider's mappings are well formed, that the keys of roles differ, and that the
  -- user holds no role twice.
  pub apply_claim_mappings-gained :
      (provider_id : ℕ) (user : User) (claims : Dict) (now : Time) (db : Database)
      → AreWellFormed (provider_mappings provider_id db)
      → IsKeyed user.id db
      → Gains user.id
          (λ r.
            any
              (λ m. m.provider_id == provider_id && (m.role_id == r && matches_claims claims m))
              db.claim_role_mappings.rows)
          db
          (apply_claim_mappings re_search provider_id user claims now db)
  unfolding apply_claim_mappings transaction
  apply_claim_mappings-gained provider_id user claims now db formed keyed =
      let ms = provider_mappings provider_id db in
      let ((names, returned), more, gained) =
        apply_mappings-Gains user.id claims now ms db formed keyed in
      let committed : rolled_back db (apply_mappings re_search user.id claims now ms db)
          ≡ (ok names, (apply_mappings re_search user.id claims now ms db).1) =
        ap (λ r. rolled_back db (r, (apply_mappings re_search user.id claims now ms db).1))
          returned in
      subst (Gains user.id _ db) (sym committed) (
        (names, refl),
        more,
        λ u r.
            gained u r
            ∙ ap (λ b. holds db u r || (user.id == u && b))
                (any-order_desc _ _
                    (select (λ m. m.provider_id == provider_id) db.claim_role_mappings.rows)
                  ∙ any-select_both _ _ db.claim_role_mappings.rows),
      )
