-- ===== src/Sso/Provisioning/Made.antt =====
-- The account that a first login finds or makes.
use accelerator_pack_auth_se.Prelude.{
  ℕ, String, List, [], ◌∷◌, ◌≡◌, refl, ap, sym, subst, ◌∙◌, ◌≤◌, Bool, true, false, Option, none,
  some, ok, ◌==◌, ==_refl, str_eq, any, map, select, length, Bool-cases, inl, inr,
}
use accelerator_pack_auth_se.Prelude.{ok-injective}
use accelerator_pack_auth_se.Exec.{
  Exec, continue, found_or, pure, lift, IsReader, ◌>>=◌, bind-ok, bind-after, continue-ok,
  bind-returns, bind-goes,
}
use accelerator_pack_auth_se.Table.{insert_row, scalar_one_or_none}
use accelerator_pack_auth_se.Table.Laws.{select-update_self, scalar_one_or_none-some}
use accelerator_pack_auth_se.Table.Membership.{select-In}
use accelerator_pack_auth_se.Table.Any.{In-single}
use accelerator_pack_auth_se.Values.{Value, text, Dict}
use accelerator_pack_auth_se.Models.{Time}
use accelerator_pack_auth_se.Models.Rows.{User}
use accelerator_pack_auth_se.Models.Federation.{ExternalIdentity}
use accelerator_pack_auth_se.Models.Database.{Database}
use accelerator_pack_auth_se.Queries.{one_where}
use accelerator_pack_auth_se.Accounts.{find_email, add_user}
use accelerator_pack_auth_se.Sso.Provisioning.{
  column_text, find_by_email, scalar_one, is_link, touch_link, save_link, sso_user, find_or_create,
  linked_user, jit_provision_user,
}

-- The keys of accounts differ, and differ from the next one.
abbrev pub AreKeyed : Database → Type 0
AreKeyed db =
    ((id : ℕ) → length (select (λ u. u.id == id) db.users.rows) ≤ 1)
    × (select (λ u. u.id == db.users.next_id) db.users.rows ≡ [])

-- The external identity has one link, and the account of the link is the user.
abbrev pub IsLinkedTo : ℕ → String → User → Database → Type 0
IsLinkedTo provider_id external_id user db =
    (link : ExternalIdentity) × (select (is_link provider_id external_id)
        db.external_identities.rows
      ≡ link ∷ [])
    × (select (λ u. u.id == link.user_id) db.users.rows ≡ user ∷ [])

-- A login of an external identity that is linked returns the account of the link.
pub linked-returns :
    (provider_id : ℕ) (external_id : String) (email name : Value) (raw_claims : Option Dict)
    (now : Time) (user : User) (db : Database)
    → IsLinkedTo provider_id external_id user db
    → (jit_provision_user provider_id external_id email name raw_claims now db).0 ≡ ok (user, false)
unfolding jit_provision_user linked_user one_where
linked-returns provider_id external_id email name raw_claims now user db (link, links, users) =
    rw (links, users) refl

pub touched-IsLinkedTo :
    (provider_id : ℕ) (external_id : String) (raw_claims : Option Dict) (now : Time)
    (link : ExternalIdentity) (user : User) (db : Database)
    → select (is_link provider_id external_id) db.external_identities.rows ≡ link ∷ []
    → select (λ u. u.id == link.user_id) db.users.rows ≡ user ∷ []
    → IsLinkedTo provider_id external_id user
        (save_link (is_link provider_id external_id) (touch_link raw_claims now) db)
touched-IsLinkedTo provider_id external_id raw_claims now link user db links users = (
  touch_link raw_claims now link,
  select-update_self (is_link provider_id external_id) (touch_link raw_claims now)
        db.external_identities.rows (λ l. refl)
      ∙ ap (map (touch_link raw_claims now)) links,
  users,
)

pub single-scalar :
    {S A : Type 0} (xs : List A) (s : S) (x : A) (c : Bool)
    → (continue {S = S} {B = A × Bool} (scalar_one xs) (λ y. pure (y, false)) s).0 ≡ ok (x, c)
    → xs ≡ x ∷ []
single-scalar [] s x c h = cc
single-scalar (y ∷ []) s x c h = cc
single-scalar (y ∷ z ∷ rest) s x c h = cc

-- The account that a login found or made, alone under its key.
abbrev IsMade : Database → User → Database → Type 0
IsMade db user after =
    (after.external_identities.rows ≡ db.external_identities.rows)
    × (select (λ u. u.id == user.id) after.users.rows ≡ user ∷ [])

pub scalar-none : {A : Type 0} (xs : List A) → scalar_one_or_none xs ≡ ok none → xs ≡ []
scalar-none [] h = refl
scalar-none (x ∷ []) h = cc
scalar-none (x ∷ y ∷ rest) h = cc

find_by_email-some :
    (s : String) (db : Database) (user : User)
    → AreKeyed db
    → (find_by_email (text s) db).0 ≡ ok (some user)
    → select (λ u. u.id == user.id) db.users.rows ≡ user ∷ []
unfolding find_email
find_by_email-some s db user keyed h =
    let found =
      scalar_one_or_none-some (select (λ (u : User). str_eq u.email s) db.users.rows) user h in
    select-In (λ u. u.id == user.id) db.users.rows user
      (In-single (λ u. str_eq u.email s) db.users.rows user found) (==_refl user.id)
      (keyed.0 user.id)

find_by_email-IsReader : (s : String) → IsReader (find_by_email (text s))
unfolding find_email
find_by_email-IsReader s db = refl

added :
    (s name : String) (now : Time) (db : Database) (user : User)
    → AreKeyed db
    → (add_user (sso_user s name now) db).0 ≡ ok user
    → IsMade db user (add_user (sso_user s name now) db).1
unfolding add_user select
added s name now db user keyed h = elim (Bool-cases (any (λ u. str_eq u.email s) db.users.rows)) [
  | inl e ↦ absurd (cc (rw e at h))
  | inr e ↦ rw e (made (rw e at h))
]
  where
    made :
        ok (sso_user s name now db.users.next_id) ≡ ok user
        → IsMade db user (record db { users = insert_row (sso_user s name now) db.users })
    made same =
        subst (λ u. IsMade db u (record db { users = insert_row (sso_user s name now) db.users }))
          (ok-injective (sso_user s name now db.users.next_id) user same)
          (refl, rw (==_refl db.users.next_id, keyed.1) refl)

creating : (s : String) (name : Value) (now : Time) → Exec Database (User × Bool)
creating s name now = lift (column_text name) >>= λ name_text.
    add_user (sso_user s name_text now) >>= λ user. pure (user, true)

created :
    (s : String) (name : Value) (now : Time) (db : Database) (user : User) (c : Bool)
    → AreKeyed db
    → (creating s name now db).0 ≡ ok (user, c)
    → IsMade db user (creating s name now db).1
unfolding creating
created s name now db user c keyed h =
    let (name_text, named, rest) = continue-ok (column_text name) _ db h in
    let (u, returned, last) =
      bind-returns (add_user (sso_user s name_text now)) _ db (user, c) rest in
    let made = added s name_text now db u keyed returned in
    let same : u ≡ user = cc in
    let state =
      ap (λ r. continue r (λ t. add_user (sso_user s t now) >>= λ v. pure (v, true)) db) named
      ∙ bind-goes (add_user (sso_user s name_text now)) (λ v. pure (v, true)) db u returned in
    subst (IsMade db user) (sym (ap (λ x. x.1) state))
      (subst (λ v. IsMade db v (add_user (sso_user s name_text now) db).1) same made)

pub found_or_created :
    (s : String) (name : Value) (now : Time) (db : Database) (user : User) (c : Bool)
    → AreKeyed db
    → (find_or_create (text s) name now db).0 ≡ ok (user, c)
    → IsMade db user (find_or_create (text s) name now db).1
unfolding find_or_create creating
found_or_created s name now db user c keyed h =
    let find = find_by_email (text s) in
    let rest = λ (o : Option User). found_or (creating s name now) o (λ u. pure (u, false)) in
    let (o, returned, last) = bind-ok find rest db (user, c) (find_by_email-IsReader s) h in
    subst (λ x. IsMade db user x.1)
      (sym (bind-after find rest db o (find_by_email-IsReader s) returned)) (either o returned last)
  where
    either :
        (o : Option User)
        → (find_by_email (text s) db).0 ≡ ok o
        → (found_or (creating s name now) o (λ u. pure (u, false)) db).0 ≡ ok (user, c)
        → IsMade db user (found_or (creating s name now) o (λ u. pure (u, false)) db).1
    either none returned last = created s name now db user c keyed last
    either (some u) returned last =
        let same : u ≡ user = cc in
        subst (λ v. IsMade db v db) same (refl, find_by_email-some s db u keyed returned)
