-- ===== src/Scim/Partial.antt =====
-- What a request to create a group over SCIM leaves behind when a member cannot be added.
use accelerator_pack_auth_se.Prelude.{
  ℕ, List, [], ◌∷◌, ◌≡◌, refl, sym, subst, Bool, true, false, Result, ok, err, integrity_error,
  if◌then◌else◌,
}
use accelerator_pack_auth_se.Exec.{lift, pure, continue, ◌>>=◌}
use accelerator_pack_auth_se.Models.{Time}
use accelerator_pack_auth_se.Models.Federation.{Group, GroupMembership}
use accelerator_pack_auth_se.Models.Database.{Database}
use accelerator_pack_auth_se.Queries.{transaction, rolled_back}
use accelerator_pack_auth_se.Groups.{add_group, add_membership, put_membership}
use accelerator_pack_auth_se.Scim.{
  ScimGroupData, scim_group, member_ids, add_memberships, add_members, listed, scim_create_group,
}

-- The rows of the memberships that the ids of the members make.
abbrev pub rows_of : ℕ → List ℕ → List GroupMembership → List GroupMembership
rows_of group_id [] rows = rows
rows_of group_id (user_id ∷ ids) rows =
    rows_of group_id ids (record { group_id = group_id; user_id = user_id } ∷ rows)

-- The new group is in its table. Where the call returned, every member was added to it; where it
-- raised, no member was.
abbrev pub Created : Time → ScimGroupData → Database → Result Group × Database → Type 0
Created now body db (ok group, after) =
    (after.groups.rows ≡ scim_group body now db.groups.next_id ∷ db.groups.rows)
    × (group ≡ scim_group body now db.groups.next_id)
    × ((ids : List ℕ) × (member_ids (listed body.members) ≡ ok ids)
        × (after.group_memberships.rows ≡ rows_of db.groups.next_id ids db.group_memberships.rows))
Created now body db (err e, after) =
    (after.groups.rows ≡ scim_group body now db.groups.next_id ∷ db.groups.rows)
    × (after.group_memberships.rows ≡ db.group_memberships.rows)

abbrev Added : ℕ → List ℕ → Database → Result (Unit {0}) × Database → Type 0
Added group_id ids db (ok done, after) =
    (after.groups.rows ≡ db.groups.rows)
    × (after.group_memberships.rows ≡ rows_of group_id ids db.group_memberships.rows)
Added group_id ids db (err e, after) = Unit

One : ℕ → ℕ → Database → Result (Unit {0}) × Database → Type 0
One group_id user_id db (ok done, after) = after ≡ put_membership group_id user_id db
One group_id user_id db (err e, after) = Unit

one :
    (group_id user_id : ℕ) (db : Database)
    → One group_id user_id db (add_membership group_id user_id db)
unfolding add_membership One
one group_id user_id db = chosen _
  where
    chosen :
        (refused : Bool)
        → One group_id user_id db (
            if refused
            then (err integrity_error, db)
            else (ok tt, put_membership group_id user_id db))
    chosen true = tt
    chosen false = refl

next :
    (group_id user_id : ℕ) (ids : List ℕ) (db : Database) (o : Result (Unit {0}) × Database)
    → One group_id user_id db o
    → Added group_id ids
        (put_membership group_id user_id db)
        (add_memberships group_id ids (put_membership group_id user_id db))
    → Added group_id
        (user_id ∷ ids)
        db
        (continue o.0 (λ (done : Unit {0}). add_memberships group_id ids) o.1)
unfolding One
next group_id user_id ids db (ok done, after) h rest =
    subst (λ d. Added group_id (user_id ∷ ids) db (add_memberships group_id ids d)) (sym h)
      (widened (add_memberships group_id ids (put_membership group_id user_id db)) rest)
  where
    widened :
        (o : Result (Unit {0}) × Database)
        → Added group_id ids (put_membership group_id user_id db) o
        → Added group_id (user_id ∷ ids) db o
    widened (ok d, a) x = x
    widened (err e, a) x = tt
next group_id user_id ids db (err e, after) h rest = tt

add_memberships-added :
    (group_id : ℕ) (ids : List ℕ) (db : Database)
    → Added group_id ids db (add_memberships group_id ids db)
unfolding add_memberships
add_memberships-added group_id [] db = (refl, refl)
add_memberships-added group_id (user_id ∷ ids) db =
    next group_id user_id ids db (add_membership group_id user_id db) (one group_id user_id db)
      (add_memberships-added group_id ids (put_membership group_id user_id db))

-- The group that a SCIM request creates stays where a member cannot be added: it is committed before
-- the members are read. Where the call returns, every member was added to the group; where it raises,
-- no member was.
pub scim_create_group-partial :
    (now : Time) (body : ScimGroupData) (db : Database)
    → Created now body db (scim_create_group now body db)
unfolding scim_create_group add_group add_members transaction
scim_create_group-partial now body db = members (member_ids (listed body.members)) refl
  where
    after : Database
    after = (add_group (scim_group body now) db).1

    added :
        (ids : List ℕ) (o : Result (Unit {0}) × Database)
        → member_ids (listed body.members) ≡ ok ids
        → Added db.groups.next_id ids after o
        → Created now body db (
            continue
              (rolled_back after o).0
              (λ done. pure (scim_group body now db.groups.next_id))
              (rolled_back after o).1)
    added ids (ok done, a) e (groups, memberships) = (groups, refl, (ids, e, memberships))
    added ids (err e', a) e h = (refl, refl)

    members :
        (r : Result (List ℕ))
        → member_ids (listed body.members) ≡ r
        → Created now body db (
            ((lift r >>= λ ids. transaction (add_memberships db.groups.next_id ids)) >>= λ done.
            pure (scim_group body now db.groups.next_id))
              after)
    members (ok ids) e =
        added ids (add_memberships db.groups.next_id ids after) e
          (add_memberships-added db.groups.next_id ids after)
    members (err e') e = (refl, refl)
