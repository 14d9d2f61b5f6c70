-- ===== src/Collections/Levels.antt =====
-- The permissions on collections as a map: the levels that a user has on a collection, of which
-- assigning and revoking change one entry.
use accelerator_pack_auth_se.Prelude.{
  ℕ, String, List, [], ◌∷◌, ◌≡◌, refl, ap, sym, subst, ◌∙◌, Bool, true, false, ◌&&◌, Result, ok,
  err, arith, ◌==◌, str_eq, eq_iff, any, select, map, Bool-cases, inl, inr, if◌then◌else◌,
}
use accelerator_pack_auth_se.Exec.Cases.{read-cases, found-cases}
use accelerator_pack_auth_se.Table.{delete_where}
use accelerator_pack_auth_se.Table.Apart.{select-delete_apart, IsApart-pointwise}
use accelerator_pack_auth_se.Models.{Time, PermissionLevel}
use accelerator_pack_auth_se.Models.Rows.{CollectionPermission}
use accelerator_pack_auth_se.Models.Database.{Database}
use accelerator_pack_auth_se.External.{External}
use accelerator_pack_auth_se.Config.{Settings}
use accelerator_pack_auth_se.Audit.{log_audit}
use accelerator_pack_auth_se.Tokens.{require_admin, find_user}
use accelerator_pack_auth_se.Tokens.Guards.{require_admin-state, find_user-IsReader}
use accelerator_pack_auth_se.Collections.{
  CollectionPermissionRequest, CollectionPermissionResponse, Collections, is_for, new_permission,
  replace_permission, drop_permission, assign_collection_permission, revoke_collection_permission,
}

-- The abstract view: for each user and collection the levels, in which the keys and times are forgotten.
abbrev pub Levels : Type 0
Levels = ℕ → String → List PermissionLevel

abbrev pub levels : List CollectionPermission → Levels
levels rows user_id collection_id =
    map (λ p. p.permission_level) (select (is_for user_id collection_id) rows)

abbrev pub levels_of : Database → Levels
levels_of db = levels db.collection_permissions.rows

-- One entry of the map is set.
abbrev pub set_entry : ℕ → String → List PermissionLevel → Levels → Levels
set_entry user_id collection_id new old u c =
    if u == user_id && str_eq c collection_id then new else old u c

select-delete_self :
    (p : CollectionPermission → Bool) (rows : List CollectionPermission)
    → select p (delete_where p rows) ≡ []
unfolding select delete_where
select-delete_self p [] = refl
select-delete_self p (x ∷ rows) = ground (arith, select-delete_self p rows)

other_entry :
    (user_id : ℕ) (collection_id : String) (u : ℕ) (c : String) (x : CollectionPermission)
    → (u == user_id && str_eq c collection_id) ≡ false
    → is_for user_id collection_id x ≡ true
    → is_for u c x ≡ false
unfolding is_for
other_entry user_id collection_id u c x differs h =
    ground (
      arith,
      eq_iff c collection_id,
      eq_iff x.collection_id collection_id,
      eq_iff x.collection_id c,
    )

levels-delete :
    (user_id : ℕ) (collection_id : String) (rows : List CollectionPermission) (u : ℕ) (c : String)
    → levels (delete_where (is_for user_id collection_id) rows) u c
      ≡ set_entry user_id collection_id [] (levels rows) u c
levels-delete user_id collection_id rows u c =
    elim (Bool-cases (u == user_id && str_eq c collection_id)) [
      | inl e ↦
          let same_user : u ≡ user_id = ground arith in
          let same_collection : c ≡ collection_id = ground (arith, eq_iff c collection_id) in
          rw e (
            subst (λ v. levels (delete_where (is_for user_id collection_id) rows) v c ≡ [])
              (sym same_user)
              (subst (λ d. levels (delete_where (is_for user_id collection_id) rows) user_id d ≡ [])
                (sym same_collection)
                (ap (map (λ p. p.permission_level))
                  (select-delete_self (is_for user_id collection_id) rows))))
      | inr e ↦ rw e (
          ap (map (λ p. p.permission_level)) (
            select-delete_apart (is_for user_id collection_id) (is_for u c) rows (
              IsApart-pointwise (is_for user_id collection_id) (is_for u c) rows
                λ x. other_entry user_id collection_id u c x e)))
    ]

levels-insert :
    (p : CollectionPermission) (rows : List CollectionPermission) (u : ℕ) (c : String)
    → levels (p ∷ rows) u c ≡ (
        if u == p.user_id && str_eq c p.collection_id
        then p.permission_level ∷ levels rows u c
        else levels rows u c)
unfolding select is_for
levels-insert p rows u c = ground (arith, eq_iff c p.collection_id, eq_iff p.collection_id c)

replace_permission-levels :
    (collection_id : String) (req : CollectionPermissionRequest) (now : Time) (t : Collections)
    → (u : ℕ) (c : String)
    → levels (replace_permission collection_id req now t).1.rows u c
      ≡ set_entry req.user_id collection_id (req.permission_level ∷ []) (levels t.rows) u c
unfolding replace_permission
replace_permission-levels collection_id req now t u c =
    levels-insert (new_permission collection_id req now t.next_id)
      (delete_where (is_for req.user_id collection_id) t.rows) u c
    ∙ (elim (Bool-cases (u == req.user_id && str_eq c collection_id)) [
      | inl e ↦ rw (levels-delete req.user_id collection_id t.rows u c, e) refl
      | inr e ↦ rw (levels-delete req.user_id collection_id t.rows u c, e) refl
    ])

module _ (ext : External) (settings : Settings) (now : Time) (token collection_id : String) where
  -- What the handler did to the map where it returned; where it raised, the map is as it was.
  abbrev pub Sets :
      {A : Type 0} → ℕ → List PermissionLevel → Database → Result A × Database → Type 0
  Sets user_id new db (ok response, after) =
      (u : ℕ) (c : String)
      → levels_of after u c ≡ set_entry user_id collection_id new (levels_of db) u c
  Sets user_id new db (err e, after) = (u : ℕ) (c : String) → levels_of after u c ≡ levels_of db u c

  -- Assigning a level on a collection is the update of one entry of the map: the user then has that
  -- level alone on that collection, and every other user and collection the levels they had. A call
  -- that raises changes no level.
  pub assign_collection_permission_refines :
      (req : CollectionPermissionRequest) (db : Database)
      → Sets req.user_id
          (req.permission_level ∷ [])
          db
          (assign_collection_permission ext settings now token collection_id req db)
  unfolding assign_collection_permission replace_permission log_audit
  assign_collection_permission_refines req db =
      let P = Sets {A = CollectionPermissionResponse} req.user_id (req.permission_level ∷ []) db in
      read-cases P (require_admin ext settings now token) _ db
        (require_admin-state ext settings now token) (λ e u c. refl)
        λ admin h.
          read-cases P (find_user req.user_id) _ db (find_user-IsReader req.user_id) (λ e u c. refl)
            λ found g.
              found-cases {B = CollectionPermissionResponse} P _ found _ db (λ u c. refl)
                λ user e. replace_permission-levels collection_id req now db.collection_permissions

  -- Revoking is the removal of one entry of the map: the user then has no level on that collection,
  -- and every other user and collection the levels they had. A call that raises changes no level.
  pub revoke_collection_permission_refines :
      (user_id : ℕ) (db : Database)
      → Sets user_id [] db
          (revoke_collection_permission ext settings now token collection_id user_id db)
  unfolding revoke_collection_permission drop_permission log_audit
  revoke_collection_permission_refines user_id db =
      let P = Sets {A = Unit} user_id [] db in
      read-cases P (require_admin ext settings now token) _ db
        (require_admin-state ext settings now token) (λ e u c. refl)
        λ admin h.
          elim (Bool-cases (any (is_for user_id collection_id) db.collection_permissions.rows)) [
            | inl e ↦
                rw e λ u c. levels-delete user_id collection_id db.collection_permissions.rows u c
            | inr e ↦ rw e λ u c. refl
          ]
