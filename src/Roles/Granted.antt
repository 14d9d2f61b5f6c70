-- ===== src/Roles/Granted.antt =====
-- What a role permits after its permissions have been set.
use accelerator_pack_auth_se.Prelude.{
  ℕ, ◌≤◌, String, List, [], ◌∷◌, ◌++◌, ◌≡◌, refl, ap, subst, fun_ext, ◌∙◌, Bool, true, false, not,
  ◌&&◌, ◌||◌, Option, none, some, Result, ok, err, arith, ◌==◌, ==_refl, str_eq, eq_iff, length,
  select, any, map, contains, then-ok, is_empty, Bool-cases, inl, inr, ok-injective,
}
use accelerator_pack_auth_se.Exec.{gets, ◌>>=◌, ◌>>◌}
use accelerator_pack_auth_se.Admin.{audit_as}
use accelerator_pack_auth_se.Exec.Cases.{read-cases, guard-cases, found-cases, lift-cases}
use accelerator_pack_auth_se.Table.{delete_where, scalar_one_or_none}
use accelerator_pack_auth_se.Table.Laws.{scalar_one_or_none-some, select-head}
use accelerator_pack_auth_se.Table.Any.{
  any-false, any_or, any_empty, any_both_single, In-single, any_single, contains-flat_map,
}
use accelerator_pack_auth_se.Table.Membership.{select-In}
use accelerator_pack_auth_se.Models.{Time}
use accelerator_pack_auth_se.Models.Rows.{User, DbRole, RolePermission, Permission}
use accelerator_pack_auth_se.Models.Database.{Database}
use accelerator_pack_auth_se.External.{External}
use accelerator_pack_auth_se.Config.{Settings}
use accelerator_pack_auth_se.Audit.{log_audit}
use accelerator_pack_auth_se.Queries.{one_where}
use accelerator_pack_auth_se.Tokens.{require_permission}
use accelerator_pack_auth_se.Tokens.Guards.{require_permission-state}
use accelerator_pack_auth_se.Roles.{
  RoleResponse, find_role, role_codenames, build_role_response, permission_ids, repeats_key,
  role_target, put_permissions, replace_permissions, set_role_permissions,
}

-- The primary key of a table.
abbrev pub HasKeys : {A : Type 0} → (A → ℕ) → List A → Type 0
HasKeys key rows = (k : ℕ) → length (select (λ row. key row == k) rows) ≤ 1

scalar_none : {A : Type 0} (xs : List A) → scalar_one_or_none xs ≡ ok none → xs ≡ []
scalar_none [] h = refl
scalar_none (x ∷ []) h = cc
scalar_none (x ∷ y ∷ rest) h = cc

abbrev has_key : List ℕ → String → Permission → Bool
has_key ids s p = str_eq p.codename s && any (λ j. j == p.id) ids

==_sym : (a b : ℕ) → (a == b) ≡ (b == a)
==_sym a b = ground arith

either :
    (s c name : String) (later known held : Bool)
    → name ≡ c
    → (c ≡ s → known ≡ true)
    → held ≡ (later && known)
    → (str_eq name s || held) ≡ ((str_eq c s || later) && known)
either s c name later known held e there ih = elim (Bool-cases (str_eq c s)) [
  | inl same ↦ rw (e, same, there ((eq_iff c s).0 same)) refl
  | inr other ↦ rw (e, other) ih
]

with_found :
    (ps : List Permission) (c : String) (rest : List ℕ) (s : String) (later : Bool)
    → HasKeys (λ p. p.id) ps
    → (found : Option Permission)
    → scalar_one_or_none (select (λ p. str_eq p.codename c) ps) ≡ ok found
    → any (has_key rest s) ps ≡ (later && any (λ p. str_eq p.codename s) ps)
    → any (has_key (elim found [ none ↦ rest | some p ↦ p.id ∷ rest ]) s) ps
      ≡ ((str_eq c s || later) && any (λ p. str_eq p.codename s) ps)
unfolding any
with_found ps c rest s later keys none row ih =
    let absent = any_empty (λ (p : Permission). str_eq p.codename c) ps (scalar_none _ row) in
    elim (Bool-cases (str_eq c s)) [
      | inl same ↦
          let here =
            subst (λ t. any (λ (p : Permission). str_eq p.codename t) ps ≡ false)
              ((eq_iff c s).0 same) absent in
          ground arith
      | inr other ↦ rw other ih
    ]
with_found ps c rest s later keys (some p) row ih =
    let single = scalar_one_or_none-some _ p row in
    let named = select-head (λ (q : Permission). str_eq q.codename c) ps p [] single in
    let keyed =
      any_both_single (λ q. q.id == p.id) (λ q. str_eq q.codename s) ps p
        (select-In (λ (q : Permission). q.id == p.id) ps p (In-single _ ps p single) (==_refl p.id)
          (keys p.id)) in
    let there = any_single (λ (q : Permission). str_eq q.codename c) ps p single in
    any_or (λ q. str_eq q.codename s) (λ q. p.id == q.id) (λ q. any (λ j. j == q.id) rest) ps
    ∙ ap (λ b. b || any (has_key rest s) ps)
        (ap (λ t. any (λ (q : Permission). str_eq q.codename s && t q) ps)
            (fun_ext (λ (q : Permission). ==_sym p.id q.id))
          ∙ keyed)
    ∙ either s c p.codename later (any (λ (q : Permission). str_eq q.codename s) ps)
        (any (has_key rest s) ps) ((eq_iff p.codename c).0 named)
        (λ e. subst (λ t. any (λ (q : Permission). str_eq q.codename t) ps ≡ true) e there) ih

-- A codename is found by its key.
permission_ids-any :
    (ps : List Permission) (codenames : List String) (ids : List ℕ) (s : String)
    → HasKeys (λ p. p.id) ps
    → permission_ids ps codenames ≡ ok ids
    → any (λ p. str_eq p.codename s && any (λ j. j == p.id) ids) ps
      ≡ (contains codenames s && any (λ p. str_eq p.codename s) ps)
unfolding permission_ids any contains
permission_ids-any ps [] ids s keys h =
    subst (λ js. any (λ p. str_eq p.codename s && any (λ j. j == p.id) js) ps ≡ false)
      (ok-injective [] ids h) (any-false (λ p. str_eq p.codename s) ps)
permission_ids-any ps (c ∷ cs) ids s keys h =
    let (found, row, h1) =
      then-ok (scalar_one_or_none (select (λ p. str_eq p.codename c) ps)) _ h in
    let (rest, later, h2) = then-ok (permission_ids ps cs) _ h1 in
    subst
      (λ js.
        any (λ p. str_eq p.codename s && any (λ j. j == p.id) js) ps
        ≡ ((str_eq c s || contains cs s) && any (λ p. str_eq p.codename s) ps))
      (ok-injective _ ids h2)
      (with_found ps c rest s (contains cs s) keys found row
        (permission_ids-any ps cs rest s keys later))

abbrev of_role : ℕ → ℕ → RolePermission → Bool
of_role role_id k rp = rp.permission_id == k && rp.role_id == role_id

none_kept :
    (role_id k : ℕ) (rows : List RolePermission)
    → is_empty (select (of_role role_id k) (delete_where (λ rp. rp.role_id == role_id) rows)) ≡ true
unfolding select delete_where
none_kept role_id k [] = refl
none_kept role_id k (rp ∷ rows) = ground (arith, none_kept role_id k rows)

given_keys :
    (role_id k : ℕ) (ids : List ℕ) (rows : List RolePermission)
    → not (
        is_empty (
          select (of_role role_id k) (
            map (λ id. record { role_id = role_id; permission_id = id }) ids
            ++ delete_where (λ rp. rp.role_id == role_id) rows)))
      ≡ any (λ j. j == k) ids
unfolding select any
given_keys role_id k [] rows = ap not (none_kept role_id k rows)
given_keys role_id k (id ∷ ids) rows = ground (arith, given_keys role_id k ids rows)

put_permissions-codenames :
    (role_id : ℕ) (ids : List ℕ) (db : Database) (s : String)
    → contains (role_codenames (put_permissions role_id ids db) role_id) s
      ≡ any (has_key ids s) db.permissions.rows
unfolding role_codenames
put_permissions-codenames role_id ids db s =
    contains-flat_map (λ p. p.codename) _ db.permissions.rows s
    ∙ ap (λ t. any (λ (p : Permission). str_eq p.codename s && t p) db.permissions.rows)
        (fun_ext (λ (p : Permission). given_keys role_id p.id ids db.role_permissions.rows))

module _ (ext : External) (settings : Settings) (now : Time) (token : String) (role_id : ℕ)
    (codenames : List String) where
  -- What the call returned or left behind: the role permits what was asked for and exists, and the
  -- response says what the database does; or nothing has changed.
  abbrev pub Granted : Database → Result RoleResponse × Database → Type 0
  Granted db (ok response, db') =
      ((s : String)
        → contains (role_codenames db' role_id) s
          ≡ (contains codenames s && any (λ p. str_eq p.codename s) db.permissions.rows))
      × (response.permissions ≡ role_codenames db' role_id)
  Granted db (err e, db') = db' ≡ db

  replaced :
      (admin : User) (role : DbRole) (ids : List ℕ) (db : Database)
      → HasKeys (λ p. p.id) db.permissions.rows
      → role.id ≡ role_id
      → permission_ids db.permissions.rows codenames ≡ ok ids
      → Granted db (
          (replace_permissions role_id ids >>= λ done.
          (audit_as admin "set_role_permissions" (role_target role_id) now
            >> gets (λ d. build_role_response d role)))
            db)
  unfolding replace_permissions log_audit build_role_response role_codenames
  replaced admin role ids db keys same read = elim (Bool-cases (repeats_key ids)) [
    | inl twice ↦ rw twice refl
    | inr once ↦ rw once (
      λ s.
          put_permissions-codenames role_id ids db s
          ∙ permission_ids-any db.permissions.rows codenames ids s keys read,
      ap (role_codenames (put_permissions role_id ids db)) same,
    )
  ]

  -- Setting the permissions of a role gives it exactly those of the named permissions that exist,
  -- each codename that no permission has being skipped, and the response lists what the database then
  -- holds; where the call fails, nothing has changed. The keys of the permissions are distinct.
  pub set_role_permissions_lem :
      (db : Database)
      → HasKeys (λ p. p.id) db.permissions.rows
      → Granted db (set_role_permissions ext settings now token role_id codenames db)
  unfolding set_role_permissions find_role one_where
  set_role_permissions_lem db keys =
      read-cases (Granted db) (require_permission ext settings "roles:update" now token) _ db
        (require_permission-state ext settings "roles:update" now token) (λ e. refl)
        λ admin h.
          read-cases (Granted db) (find_role role_id) _ db (λ d. refl) (λ e. refl)
            λ found g. found-cases {B = RoleResponse} (Granted db) _ found _ db refl λ role e.
              guard-cases {B = RoleResponse} (Granted db) (not role.is_system) _ _ db refl λ custom.
                lift-cases {B = RoleResponse} (Granted db)
                  (permission_ids db.permissions.rows codenames) _ db (λ f. refl)
                  (λ ids read.
                    replaced admin role ids db keys
                      (key_lem role (scalar_one_or_none-some _ role (g ∙ ap ok e))) read)
    where
      key_lem :
          (role : DbRole)
          → select (λ (r : DbRole). r.id == role_id) db.roles.rows ≡ role ∷ []
          → role.id ≡ role_id
      key_lem role single =
          let e = select-head (λ (r : DbRole). r.id == role_id) db.roles.rows role [] single in
          ground arith
