-- ===== src/Seeding/Ensure.antt =====
-- The step "find the row, or add it", and the loops that are made of it.
use accelerator_pack_auth_se.Prelude.{
  ℕ, String, List, [], ◌∷◌, ◌≡◌, refl, subst, Bool, true, ◌||◌, Option, none, some, Error, Result,
  ok, err, arith, ==_refl, str_eq, eq_iff, eq_refl, select, contains, Bool-cases, inl, inr,
}
use accelerator_pack_auth_se.Exec.{continue, found_or, pure, ◌>>=◌}
use accelerator_pack_auth_se.Exec.Cases.{bind-cases, found-cases}
use accelerator_pack_auth_se.Table.{Table, insert_row, scalar_one_or_none}
use accelerator_pack_auth_se.Table.Laws.{any_of_select, select-head}
use accelerator_pack_auth_se.Table.Any.{any_empty}
use accelerator_pack_auth_se.Models.Rows.{Permission, RolePermission}
use accelerator_pack_auth_se.Seeding.{
  ensure, is_codename, seeded_permission, seed_permissions, find_codename, is_grant,
  grant_codenames,
}

-- Exactly one row passes the test.
abbrev pub IsOne : {A : Type 0} → (A → Bool) → Table A → Type 0
IsOne {A} test t = (x : A) × (select test t.rows ≡ x ∷ [])

module _ {A : Type 0} (test : A → Bool) (row : ℕ → A) where
  pub ensure-cases :
      (P : Result A × Table A → Type 0) (t : Table A)
      → (select test t.rows ≡ [] → P (ok (row t.next_id), insert_row row t))
      → ((x : A) → select test t.rows ≡ x ∷ [] → P (ok x, t))
      → ((e : Error) → P (err e, t))
      → P (ensure test row t)
  unfolding ensure
  ensure-cases P t new old failed = by_rows (select test t.rows) refl
    where
      by_rows :
          (found : List A)
          → select test t.rows ≡ found
          → P (
              continue
                (scalar_one_or_none found)
                (λ o. found_or (λ t'. (ok (row t'.next_id), insert_row row t')) o pure)
                t)
      by_rows [] h = new h
      by_rows (x ∷ []) h = old x h
      by_rows (x ∷ y ∷ rest) h = failed _

  -- Where it returns, the row that it returns is the only one that passes the test.
  pub ensure-IsOne :
      (t : Table A) (x : A)
      → ((id : ℕ) → test (row id) ≡ true)
      → (ensure test row t).0 ≡ ok x
      → select test (ensure test row t).1.rows ≡ x ∷ []
  unfolding select
  ensure-IsOne t x fits =
      ensure-cases (λ r. r.0 ≡ ok x → select test r.1.rows ≡ x ∷ []) t
        (λ none h. ground (arith, fits t.next_id)) (λ y one h. ground arith) (λ e h. cc)

  pub ensure_again :
      (t : Table A) (x : A) → select test t.rows ≡ x ∷ [] → ensure test row t ≡ (ok x, t)
  unfolding ensure
  ensure_again t x one = rw one refl

  -- The one row of another test stays the only one.
  pub ensure-keeps :
      (other : A → Bool) (t : Table A) (y : A)
      → ((id : ℕ) (z : A) → other (row id) ≡ true → other z ≡ true → test z ≡ true)
      → select other t.rows ≡ y ∷ []
      → select other (ensure test row t).1.rows ≡ y ∷ []
  unfolding select
  ensure-keeps other t y apart one =
      ensure-cases (λ r. select other r.1.rows ≡ y ∷ []) t
        (λ none. ground (
          arith,
          apart t.next_id y,
          select-head other t.rows y [] one,
          any_of_select other test t.rows y [],
          any_empty test t.rows,
        ))
        (λ x old. one) (λ e. one)

-- The permissions of the pack.
seed_permissions-keeps :
    (codenames : List String) (c : String) (t : Table Permission) (y : Permission)
    → select (is_codename c) t.rows ≡ y ∷ []
    → select (is_codename c) (seed_permissions codenames t).1.rows ≡ y ∷ []
unfolding seed_permissions
seed_permissions-keeps [] c t y one = one
seed_permissions-keeps (d ∷ ds) c t y one =
    let step = ensure (is_codename d) (seeded_permission d) in
    let kept =
      ensure-keeps (is_codename d) (seeded_permission d) (is_codename c) t y
        (λ id z. same_codename d c z.codename) one in
    bind-cases (λ r. select (is_codename c) r.1.rows ≡ y ∷ []) step _ t (λ e h. kept)
      (λ p h. seed_permissions-keeps ds c (step t).1 y kept)
  where
    same_codename : (d c z : String) → str_eq d c ≡ true → str_eq z c ≡ true → str_eq z d ≡ true
    same_codename d c z h k = ground (arith, eq_iff d c, eq_iff z c, eq_iff z d)

-- Every codename has one permission afterwards.
pub seed_permissions-IsOne :
    (codenames : List String) (c : String) (t : Table Permission)
    → (seed_permissions codenames t).0 ≡ ok tt
    → contains codenames c ≡ true
    → IsOne (is_codename c) (seed_permissions codenames t).1
unfolding seed_permissions contains
seed_permissions-IsOne [] c t h m = cc
seed_permissions-IsOne (d ∷ ds) c t h m =
    let step = ensure (is_codename d) (seeded_permission d) in
    bind-cases (λ r. r.0 ≡ ok tt → IsOne (is_codename c) r.1) step _ t (λ e f k. cc)
      (λ p f k. elim (Bool-cases (str_eq d c)) [
        | inl same ↦
            let here = ensure-IsOne (is_codename d) (seeded_permission d) t p (λ id. eq_refl d) f in
            (
              p,
              seed_permissions-keeps ds c (step t).1 p (
                  subst (λ n. select (is_codename n) (step t).1.rows ≡ p ∷ []) ((eq_iff d c).0 same)
                    here),
            )
        | inr other ↦ seed_permissions-IsOne ds c (step t).1 k (rw other at m)
      ])
      h

-- Where every codename has one permission, nothing is left to do.
pub seed_permissions_again :
    (codenames : List String) (t : Table Permission)
    → ((c : String) → contains codenames c ≡ true → IsOne (is_codename c) t)
    → seed_permissions codenames t ≡ (ok tt, t)
unfolding seed_permissions contains
seed_permissions_again [] t one = refl
seed_permissions_again (d ∷ ds) t one =
    let (p, single) = one d (ground (arith, eq_refl d)) in
    let first = ensure_again (is_codename d) (seeded_permission d) t p single in
    rw first (seed_permissions_again ds t (λ c m. one c (ground arith)))

-- The permissions that a role is given.
module _ (all_perms : List Permission) (role_id : ℕ) where
  abbrev grant_row : ℕ → ℕ → RolePermission
  grant_row permission_id id = record { role_id = role_id; permission_id = permission_id }

  pub grant_codenames-keeps :
      (codenames : List String) (r k : ℕ) (t : Table RolePermission) (y : RolePermission)
      → select (is_grant r k) t.rows ≡ y ∷ []
      → select (is_grant r k) (grant_codenames all_perms role_id codenames t).1.rows ≡ y ∷ []
  unfolding grant_codenames
  grant_codenames-keeps [] r k t y one = one
  grant_codenames-keeps (c ∷ cs) r k t y one =
      found-cases (λ x. select (is_grant r k) x.1.rows ≡ y ∷ []) _ (find_codename all_perms c) _ t
        (grant_codenames-keeps cs r k t y one)
        λ p e.
          let step = ensure (is_grant role_id p.id) (grant_row p.id) in
          let kept =
            ensure-keeps (is_grant role_id p.id) (grant_row p.id) (is_grant r k) t y
              (λ id z. same_grant r k p.id z) one in
          bind-cases (λ x. select (is_grant r k) x.1.rows ≡ y ∷ []) step _ t (λ f h. kept)
            (λ g h. grant_codenames-keeps cs r k (step t).1 y kept)
    where
      same_grant :
          (r k p : ℕ) (z : RolePermission)
          → is_grant r k (record { role_id = role_id; permission_id = p }) ≡ true
          → is_grant r k z ≡ true
          → is_grant role_id p z ≡ true
      same_grant r k p z h g = ground arith

  -- The loop after a codename that was looked for.
  with_found :
      (d : String) (ds : List String) (c : String) (p : Permission) (t : Table RolePermission)
      (o : Option Permission)
      → find_codename all_perms d ≡ o
      → (str_eq d c || contains ds c) ≡ true
      → find_codename all_perms c ≡ some p
      → ((t' : Table RolePermission)
          → (grant_codenames all_perms role_id ds t').0 ≡ ok tt
          → contains ds c ≡ true
          → IsOne (is_grant role_id p.id) (grant_codenames all_perms role_id ds t').1)
      → (found_or
          (grant_codenames all_perms role_id ds)
          o
          (λ q. ensure (is_grant role_id q.id) (grant_row q.id) >>= λ granted.
            grant_codenames all_perms role_id ds)
          t).0
        ≡ ok tt
      → IsOne
          (is_grant role_id p.id)
          (found_or
            (grant_codenames all_perms role_id ds)
            o
            (λ q. ensure (is_grant role_id q.id) (grant_row q.id) >>= λ granted.
              grant_codenames all_perms role_id ds)
            t).1
  with_found d ds c p t none f m e later h = later t h (ground (arith, eq_iff d c))
  with_found d ds c p t (some q) f m e later h =
      let step = ensure (is_grant role_id q.id) (grant_row q.id) in
      bind-cases (λ r. r.0 ≡ ok tt → IsOne (is_grant role_id p.id) r.1) step _ t (λ x g k. cc)
        (λ x g k. elim (Bool-cases (str_eq d c)) [
          | inl same ↦
              let own : q ≡ p = ground (arith, eq_iff d c) in
              let here =
                ensure-IsOne (is_grant role_id q.id) (grant_row q.id) t x
                  (λ id. ground (arith, ==_refl role_id, ==_refl q.id)) g in
              (
                x,
                grant_codenames-keeps ds role_id p.id (step t).1 x
                    (subst (λ z. select (is_grant role_id z.id) (step t).1.rows ≡ x ∷ []) own here),
              )
          | inr other ↦ later (step t).1 k (rw other at m)
        ])
        h

  -- Every codename that is a permission is granted afterwards.
  pub grant_codenames-IsOne :
      (codenames : List String) (c : String) (p : Permission) (t : Table RolePermission)
      → (grant_codenames all_perms role_id codenames t).0 ≡ ok tt
      → contains codenames c ≡ true
      → find_codename all_perms c ≡ some p
      → IsOne (is_grant role_id p.id) (grant_codenames all_perms role_id codenames t).1
  unfolding grant_codenames contains
  grant_codenames-IsOne [] c p t h m e = cc
  grant_codenames-IsOne (d ∷ ds) c p t h m e =
      with_found d ds c p t (find_codename all_perms d) refl m e
        (λ t' k n. grant_codenames-IsOne ds c p t' k n e) h

  -- Where they all are granted, nothing is left to do.
  pub grant_codenames_again :
      (codenames : List String) (t : Table RolePermission)
      → ((c : String) (p : Permission)
          → contains codenames c ≡ true
          → find_codename all_perms c ≡ some p
          → IsOne (is_grant role_id p.id) t)
      → grant_codenames all_perms role_id codenames t ≡ (ok tt, t)
  unfolding grant_codenames contains
  grant_codenames_again [] t one = refl
  grant_codenames_again (d ∷ ds) t one =
      let later = grant_codenames_again ds t (λ c p m. one c p (ground arith)) in
      found-cases (λ x. x ≡ (ok tt, t)) _ (find_codename all_perms d) _ t later
        λ p e.
          let (x, single) = one d p (ground (arith, eq_refl d)) e in
          let first = ensure_again (is_grant role_id p.id) (grant_row p.id) t x single in
          rw first later
