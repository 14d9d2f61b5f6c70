-- ===== src/Seeding/EachRole.antt =====
-- The loop over the roles of the pack.
use accelerator_pack_auth_se.Prelude.{
  ℕ, String, List, [], ◌∷◌, ◌≡◌, refl, sym, subst, ◌∙◌, ap, Bool, true, ◌&&◌, Option, none, some,
  Result, ok, err, arith, str_eq, eq_iff, eq_refl, select, contains, Bool-cases, inl, inr,
}
use accelerator_pack_auth_se.Exec.{Exec, continue, ◌>>=◌}
use accelerator_pack_auth_se.Exec.Cases.{bind-cases}
use accelerator_pack_auth_se.Table.{Table, scalar_one_or_none}
use accelerator_pack_auth_se.Models.{Time}
use accelerator_pack_auth_se.Models.Rows.{DbRole, Permission}
use accelerator_pack_auth_se.Models.Database.{Database}
use accelerator_pack_auth_se.PackModels.{PackAuthModel, permissions_for_role}
use accelerator_pack_auth_se.Seeding.{
  Session, in_session, ensure, on_roles, on_role_permissions, is_system_named, seeded_role,
  find_codename, is_grant, grant_codenames, seed_role, seed_roles,
}
use accelerator_pack_auth_se.Seeding.Ensure.{
  IsOne, ensure-IsOne, ensure_again, ensure-keeps, grant_codenames-IsOne, grant_codenames-keeps,
  grant_codenames_again,
}

module _ (model : PackAuthModel) (all_perms : List Permission) where
  -- There is one system role of that name, and it is given each codename that the pack gives it.
  pub record HasRole (name : String) (db : Database) : Type 0 where
    pub role : DbRole
    pub single : select (is_system_named name) db.roles.rows ≡ role ∷ []
    pub granted :
        (c : String) (p : Permission)
        → contains (permissions_for_role model name) c ≡ true
        → find_codename all_perms c ≡ some p
        → IsOne (is_grant role.id p.id) db.role_permissions

  HasRole_step :
      (name other : String) (now : Time) (db : Database)
      → HasRole other db
      → HasRole other
          (record db { roles = (ensure (is_system_named name) (seeded_role name now) db.roles).1 })
  HasRole_step name other now db has = record {
    role = has.role;
    single =
        ensure-keeps (is_system_named name) (seeded_role name now) (is_system_named other) db.roles
          has.role (λ id z. same_name z.name z.is_system) has.single;
    granted = has.granted;
  }
    where
      same_name :
          (z : String) (b : Bool)
          → (str_eq name other && true) ≡ true
          → (str_eq z other && b) ≡ true
          → (str_eq z name && b) ≡ true
      same_name z b h k = ground (arith, eq_iff name other, eq_iff z other, eq_iff z name)

  HasRole_grants :
      (name : String) (role_id : ℕ) (codenames : List String) (db : Database)
      → HasRole name db
      → HasRole name (record db {
        role_permissions = (grant_codenames all_perms role_id codenames db.role_permissions).1;
      })
  HasRole_grants name role_id codenames db has = record {
    role = has.role;
    single = has.single;
    granted = λ c p m e.
        let (x, one) = has.granted c p m e in
        (
          x,
          grant_codenames-keeps all_perms role_id codenames has.role.id p.id db.role_permissions x
              one,
        );
  }

  seed_role-current :
      (now : Time) (name : String) (s : Session)
      → (seed_role now name s).1.current ≡ record (s.current) {
        roles = (ensure (is_system_named name) (seeded_role name now) s.current.roles).1;
      }
  unfolding seed_role
  seed_role-current now name s =
      either (scalar_one_or_none (select (is_system_named name) s.current.roles.rows))
        (in_session (on_roles (ensure (is_system_named name) (seeded_role name now))) s).1
    where
      either :
          (found : Result (Option DbRole)) (s' : Session)
          → (elim found as (λ f. Session) [
            | ok none ↦ record s' { committed = s'.current }
            | _ ↦ s'
          ]).current
            ≡ s'.current
      either (ok none) s' = refl
      either (ok (some r)) s' = refl
      either (err e) s' = refl

  seed_role-keeps :
      (now : Time) (name other : String) (s : Session)
      → HasRole other s.current
      → HasRole other (seed_role now name s).1.current
  seed_role-keeps now name other s has =
      subst (HasRole other) (sym (seed_role-current now name s))
        (HasRole_step name other now s.current has)

  abbrev grants : String → ℕ → Exec Session Unit
  grants name role_id =
      in_session
        (on_role_permissions (grant_codenames all_perms role_id (permissions_for_role model name)))

  seed_roles-keeps :
      (now : Time) (names : List String) (other : String) (s : Session)
      → HasRole other s.current
      → HasRole other (seed_roles model all_perms now names s).1.current
  unfolding seed_roles
  seed_roles-keeps now [] other s has = has
  seed_roles-keeps now (name ∷ names) other s has =
      let here = seed_role-keeps now name other s has in
      let s' = (seed_role now name s).1 in
      bind-cases (λ r. HasRole other r.1.current) (seed_role now name) _ s (λ e h. here)
        λ role h.
          let given =
            HasRole_grants other role.id (permissions_for_role model name) s'.current here in
          bind-cases (λ r. HasRole other r.1.current) (grants name role.id) _ s' (λ e k. given)
            (λ done k. seed_roles-keeps now names other _ given)

  own_role :
      (now : Time) (name : String) (role : DbRole) (s : Session)
      → (seed_role now name s).0 ≡ ok role
      → (grants name role.id (seed_role now name s).1).0 ≡ ok tt
      → HasRole name (grants name role.id (seed_role now name s).1).1.current
  unfolding seed_role
  own_role now name role s found given = record {
    role = role;
    single =
        ap (λ (d : Database). select (is_system_named name) d.roles.rows)
          (seed_role-current now name s)
        ∙ ensure-IsOne (is_system_named name) (seeded_role name now) s.current.roles role
            (λ id. ground (arith, eq_refl name)) found;
    granted = λ c p m e.
        grant_codenames-IsOne all_perms role.id (permissions_for_role model name) c p
          (seed_role now name s).1.current.role_permissions given m e;
  }

  pub seed_roles-HasRole :
      (now : Time) (names : List String) (n : String) (s : Session)
      → (seed_roles model all_perms now names s).0 ≡ ok tt
      → contains names n ≡ true
      → HasRole n (seed_roles model all_perms now names s).1.current
  unfolding seed_roles contains
  seed_roles-HasRole now [] n s h m = cc
  seed_roles-HasRole now (name ∷ names) n s h m =
      let s' = (seed_role now name s).1 in
      bind-cases (λ r. r.0 ≡ ok tt → HasRole n r.1.current) (seed_role now name) _ s (λ e f k. cc)
        (λ role f.
          bind-cases (λ r. r.0 ≡ ok tt → HasRole n r.1.current) (grants name role.id) _ s'
            (λ e g k. cc)
            (λ done g k. elim (Bool-cases (str_eq name n)) [
              | inl same ↦
                  let after = (grants name role.id s').1 in
                  seed_roles-keeps now names n after (
                    subst (λ w. HasRole w after.current) ((eq_iff name n).0 same)
                      (own_role now name role s f g))
              | inr other ↦ seed_roles-HasRole now names n _ k (rw other at m)
            ]))
        h

  seed_role_again :
      (now : Time) (name : String) (s : Session) (has : HasRole name s.current)
      → seed_role now name s ≡ (ok has.role, s)
  unfolding seed_role
  seed_role_again now name s has =
      let first =
        ensure_again (is_system_named name) (seeded_role name now) s.current.roles has.role
          has.single in
      rw has.single (
        ap
          (λ (x : Result DbRole × Table DbRole).
            (x.0, record s { current = record (s.current) { roles = x.1 } }))
          first)

  grants_again :
      (name : String) (s : Session) (has : HasRole name s.current)
      → grants name has.role.id s ≡ (ok tt, s)
  grants_again name s has =
      let given =
        grant_codenames_again all_perms has.role.id (permissions_for_role model name)
          s.current.role_permissions has.granted in
      rw given refl

  pub seed_roles_again :
      (now : Time) (names : List String) (s : Session)
      → ((n : String) → contains names n ≡ true → HasRole n s.current)
      → seed_roles model all_perms now names s ≡ (ok tt, s)
  unfolding seed_roles contains
  seed_roles_again now [] s has = refl
  seed_roles_again now (name ∷ names) s has =
      let own = has name (ground (arith, eq_refl name)) in
      let rest = λ (done : Unit). seed_roles model all_perms now names in
      ap (λ (x : Result DbRole × Session). continue x.0 (λ role. grants name role.id >>= rest) x.1)
        (seed_role_again now name s own)
      ∙ ap (λ (x : Result Unit × Session). continue x.0 rest x.1) (grants_again name s own)
      ∙ seed_roles_again now names s (λ n m. has n (ground arith))

  pub seed_roles-permissions :
      (now : Time) (names : List String) (s : Session)
      → (seed_roles model all_perms now names s).1.current.permissions ≡ s.current.permissions
  unfolding seed_roles
  seed_roles-permissions now [] s = refl
  seed_roles-permissions now (name ∷ names) s =
      let here : (seed_role now name s).1.current.permissions ≡ s.current.permissions =
        ap (λ (d : Database). d.permissions) (seed_role-current now name s) in
      let s' = (seed_role now name s).1 in
      bind-cases (λ r. r.1.current.permissions ≡ s.current.permissions) (seed_role now name) _ s
        (λ e h. here)
        λ role h.
          bind-cases (λ r. r.1.current.permissions ≡ s.current.permissions) (grants name role.id) _
            s' (λ e k. here) (λ done k. seed_roles-permissions now names _ ∙ here)
