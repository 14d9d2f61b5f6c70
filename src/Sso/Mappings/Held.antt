-- ===== src/Sso/Mappings/Held.antt =====
-- The assignment of one role to the user of a login.
use accelerator_pack_auth_se.Prelude.{
  ℕ, String, List, [], ◌∷◌, ◌≡◌, refl, sym, subst, ◌≤◌, Bool, true, false, ◌&&◌, ◌||◌, Option, none,
  some, Result, ok, arith, ◌==◌, select, any, head?, length, Bool-cases, inl, inr,
}
use accelerator_pack_auth_se.Exec.{Exec, found_or, pure, modify, ◌>>=◌, ◌>>◌, bind-after}
use accelerator_pack_auth_se.Table.{Table}
use accelerator_pack_auth_se.Table.Laws.{scalar_one_or_none-le}
use accelerator_pack_auth_se.Models.{Time}
use accelerator_pack_auth_se.Models.Rows.{UserRole}
use accelerator_pack_auth_se.Models.Database.{Database}
use accelerator_pack_auth_se.Queries.{one_where, one_where-IsReader}
use accelerator_pack_auth_se.Sso.Mappings.{is_assignment, add_mapped, name_of, assign_mapped}

-- The user has the role.
abbrev pub holds : Database → ℕ → ℕ → Bool
holds db user_id role_id = any (is_assignment user_id role_id) db.user_roles.rows

-- A user holds a role at most once, and the keys of roles differ.
abbrev pub IsKeyed : ℕ → Database → Type 0
IsKeyed user_id db =
    ((role_id : ℕ) → length (select (is_assignment user_id role_id) db.user_roles.rows) ≤ 1)
    × ((role_id : ℕ) → length (select (λ r. r.id == role_id) db.roles.rows) ≤ 1)

-- The call returns; the user has the roles given beside those the user had; no other user does.
abbrev pub Gains : ℕ → (ℕ → Bool) → Database → Result (List String) × Database → Type 0
Gains user_id given db (r, after) =
    ((names : List String) × (r ≡ ok names))
    × IsKeyed user_id after
    × ((u role_id : ℕ)
        → holds after u role_id ≡ (holds db u role_id || (user_id == u && given role_id)))

pub Gains-nothing :
    (user_id : ℕ) (names : List String) (db : Database)
    → IsKeyed user_id db
    → Gains user_id (λ role_id. false) db (ok names, db)
Gains-nothing user_id names db keyed = ((names, refl), keyed, λ u role_id. ground arith)

found-any :
    (p : UserRole → Bool) (xs : List UserRole)
    → (ur : UserRole) → head? (select p xs) ≡ some ur
    → any p xs ≡ true
unfolding select any
found-any p [] ur h = cc
found-any p (x ∷ xs) ur h = ground (arith, found-any p xs ur)

missing-any :
    (p : UserRole → Bool) (xs : List UserRole)
    → head? (select p xs) ≡ none
    → (any p xs ≡ false) × (length (select p xs) ≡ 0)
unfolding select any
missing-any p [] h = (refl, refl)
missing-any p (x ∷ xs) h = ground (arith, missing-any p xs)

-- The assignment that is added for a role that the user does not have.
added-IsKeyed :
    (user_id role_id : ℕ) (now : Time) (db : Database)
    → IsKeyed user_id db
    → head? (select (is_assignment user_id role_id) db.user_roles.rows) ≡ none
    → IsKeyed user_id (add_mapped user_id role_id now db)
unfolding select
added-IsKeyed user_id role_id now db (assigned, roles) h = (
  λ r. elim (Bool-cases (role_id == r)) [
    | inl e ↦
        ground (arith, missing-any (is_assignment user_id role_id) db.user_roles.rows h, assigned r)
    | inr e ↦ ground (arith, assigned r)
  ],
  roles,
)

one-goes :
    {A : Type 0} (table : Database → Table A) (test : A → Bool)
    (rest : Option A → Exec Database (List String)) (db : Database)
    → length (select test (table db).rows) ≤ 1
    → (one_where table test >>= rest) db ≡ rest (head? (select test (table db).rows)) db
unfolding one_where
one-goes table test rest db h =
    bind-after (one_where table test) rest db (head? (select test (table db).rows))
      (one_where-IsReader table test) (scalar_one_or_none-le (select test (table db).rows) h)

held :
    (user_id role_id u r : ℕ) (db : Database)
    → holds db user_id role_id ≡ true
    → holds db u r ≡ (holds db u r || (user_id == u && role_id == r))
held user_id role_id u r db h = elim (Bool-cases (user_id == u && role_id == r)) [
  | inl e ↦
      let same_user : user_id ≡ u = ground arith in
      let same_role : role_id ≡ r = ground arith in
      let here : holds db u r ≡ true =
        subst (λ v. holds db v r ≡ true) same_user
          (subst (λ q. holds db user_id q ≡ true) same_role h) in
      ground arith
  | inr e ↦ ground arith
]

pub assign_mapped-Gains :
    (user_id role_id : ℕ) (now : Time) (db : Database)
    → IsKeyed user_id db
    → Gains user_id (λ r. role_id == r) db (assign_mapped user_id role_id now db)
unfolding assign_mapped any
assign_mapped-Gains user_id role_id now db keyed =
    subst (Gains user_id (λ r. role_id == r) db) (sym (one-goes _ _ _ db (keyed.0 role_id)))
      (assigned (head? (select (is_assignment user_id role_id) db.user_roles.rows)) refl)
  where
    assigned :
        (o : Option UserRole)
        → head? (select (is_assignment user_id role_id) db.user_roles.rows) ≡ o
        → Gains user_id
            (λ r. role_id == r)
            db
            (found_or
              (modify (add_mapped user_id role_id now)
                >> (one_where (λ db. db.roles) (λ r. r.id == role_id) >>= λ role.
                    pure (name_of role)))
              o
              (λ ur. pure [])
              db)
    assigned none h =
        let after = add_mapped user_id role_id now db in
        let more = added-IsKeyed user_id role_id now db keyed h in
        subst (Gains user_id (λ r. role_id == r) db) (sym (one-goes _ _ _ after (more.1 role_id)))
          ((_, refl), more, λ u r. ground arith)
    assigned (some ur) h = (
      (_, refl),
      keyed,
      λ u r.
          held user_id role_id u r db
            (found-any (is_assignment user_id role_id) db.user_roles.rows ur h),
    )
