-- ===== src/Seeding/Again.antt =====
-- The start of a service, and of one that has been started before.
use accelerator_pack_auth_se.Prelude.{
  String, ◌≡◌, sym, subst, ◌∙◌, ap, true, Result, ok, err, contains,
}
use accelerator_pack_auth_se.Exec.{gets, continue, ◌>>=◌, ◌>>◌}
use accelerator_pack_auth_se.Exec.Cases.{bind-cases}
use accelerator_pack_auth_se.Table.{Table}
use accelerator_pack_auth_se.Models.{Time}
use accelerator_pack_auth_se.Models.Rows.{Permission}
use accelerator_pack_auth_se.Models.Database.{Database}
use accelerator_pack_auth_se.PackModels.{PackAuthModel}
use accelerator_pack_auth_se.Seeding.{
  Session, in_session, commit, on_permissions, is_codename, seed_permissions, seed_roles,
  seed_session, seed_roles_and_permissions,
}
use accelerator_pack_auth_se.Seeding.Ensure.{IsOne, seed_permissions-IsOne, seed_permissions_again}
use accelerator_pack_auth_se.Seeding.EachRole.{
  HasRole, seed_roles-HasRole, seed_roles_again, seed_roles-permissions,
}

-- Each permission of the pack is there once, and each role of the pack is there once and is given what
-- the pack gives it.
pub record IsSeeded (model : PackAuthModel) (db : Database) : Type 0 where
  pub permission :
      (c : String) → contains model.permissions c ≡ true → IsOne (is_codename c) db.permissions
  pub role : (n : String) → contains model.roles n ≡ true → HasRole model db.permissions.rows n db

module _ (model : PackAuthModel) where
  seed_session-IsSeeded :
      (now : Time) (s : Session)
      → (seed_session model now s).0 ≡ ok tt
      → IsSeeded model (seed_session model now s).1.current
  unfolding seed_session
  seed_session-IsSeeded now s h =
      bind-cases (λ r. r.0 ≡ ok tt → IsSeeded model r.1.current)
        (in_session (on_permissions (seed_permissions model.permissions))) _ s (λ e f k. cc)
        (λ done f.
          let s1 = (in_session (on_permissions (seed_permissions model.permissions)) s).1 in
          let perms = s1.current.permissions.rows in
          let s2 = record s1 { committed = s1.current } in
          bind-cases (λ r. r.0 ≡ ok tt → IsSeeded model r.1.current)
            (seed_roles model perms now model.roles) _ s2 (λ e g k. cc)
            λ done' g k.
              let same = seed_roles-permissions model perms now model.roles s2 in
              record {
                permission = λ c m.
                    subst (IsOne (is_codename c)) (sym same)
                      (seed_permissions-IsOne model.permissions c s.current.permissions f m);
                role = λ n m.
                    subst
                      (λ (t : Table Permission).
                        HasRole model t.rows n
                          (seed_roles model perms now model.roles s2).1.current)
                      (sym same) (seed_roles-HasRole model perms now model.roles n s2 g m);
              })
        h

  -- After a start that succeeds, the permissions and roles of the pack are there, each exactly once,
  -- and each role is given what the pack gives it.
  pub seed_roles_and_permissions-IsSeeded :
      (now : Time) (db : Database)
      → (seed_roles_and_permissions model now db).0 ≡ ok tt
      → IsSeeded model (seed_roles_and_permissions model now db).1
  unfolding seed_roles_and_permissions
  seed_roles_and_permissions-IsSeeded now db h =
      let s : Session = record { committed = db; current = db } in
      settled (seed_session model now s).0 (seed_session model now s).1 h
        (seed_session-IsSeeded now s h)
    where
      settled :
          (r : Result (Unit {0})) (s : Session)
          → r ≡ ok tt
          → IsSeeded model s.current
          → IsSeeded model (elim r [ ok done ↦ s.current | err e ↦ s.committed ])
      settled (ok done) s e seeded = seeded
      settled (err x) s e seeded = cc

  seed_session_again :
      (now : Time) (db : Database)
      → IsSeeded model db
      → seed_session model now (record { committed = db; current = db })
        ≡ (ok tt, record { committed = db; current = db })
  unfolding seed_session
  seed_session_again now db seeded =
      let s : Session = record { committed = db; current = db } in
      let roles = seed_roles_again model db.permissions.rows now model.roles s seeded.role in
      let first = seed_permissions_again model.permissions db.permissions seeded.permission in
      ap
        (λ (x : Result Unit × Table Permission).
          continue x.0
            (λ done.
              commit
              >> (gets (λ (z : Session). z.current.permissions.rows) >>= λ perms.
                  seed_roles model perms now model.roles >> commit))
            (record s { current = record db { permissions = x.1 } }))
        first
      ∙ ap (λ (x : Result Unit × Session). continue x.0 (λ done. commit) x.1) roles

  -- A start on a database that has been seeded changes nothing.
  pub seed_again :
      (now : Time) (db : Database)
      → IsSeeded model db
      → seed_roles_and_permissions model now db ≡ (ok tt, db)
  unfolding seed_roles_and_permissions
  seed_again now db seeded =
      ap
        (λ (x : Result Unit × Session).
          (x.0, elim x.0 as (λ r. Database) [ ok done ↦ x.1.current | err e ↦ x.1.committed ]))
        (seed_session_again now db seeded)

  -- A second start with the same pack, at any time, returns and changes nothing.
  pub seed_roles_and_permissions-twice :
      (now later : Time) (db : Database)
      → (seed_roles_and_permissions model now db).0 ≡ ok tt
      → seed_roles_and_permissions model later (seed_roles_and_permissions model now db).1
        ≡ (ok tt, (seed_roles_and_permissions model now db).1)
  seed_roles_and_permissions-twice now later db h =
      seed_again later _ (seed_roles_and_permissions-IsSeeded now db h)
