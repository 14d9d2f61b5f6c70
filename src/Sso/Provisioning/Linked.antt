-- ===== src/Sso/Provisioning/Linked.antt =====
-- The second login of one external identity.
use accelerator_pack_auth_se.Prelude.{
  ℕ, String, List, [], ◌≡◌, refl, ap, sym, subst, ◌∙◌, Bool, false, Option, none, some, ok, ◌==◌,
  ==_refl, select,
}
use accelerator_pack_auth_se.Prelude.{eq_refl}
use accelerator_pack_auth_se.Exec.{
  found_or, pure, modify, ◌>>◌, bind-ok, bind-after, continue-state, bind-returns, bind-goes,
}
use accelerator_pack_auth_se.Table.{scalar_one_or_none}
use accelerator_pack_auth_se.Table.Laws.{scalar_one_or_none-some}
use accelerator_pack_auth_se.Values.{Value, null, text, number, list, other, Dict}
use accelerator_pack_auth_se.Models.{Time}
use accelerator_pack_auth_se.Models.Rows.{User}
use accelerator_pack_auth_se.Models.Federation.{ExternalIdentity}
use accelerator_pack_auth_se.Models.Database.{Database}
use accelerator_pack_auth_se.Queries.{one_where, one_where-IsReader}
use accelerator_pack_auth_se.Sso.Provisioning.{
  scalar_one, is_link, touch_link, save_link, find_or_create, link_user, linked_user, new_link,
  add_link, jit_provision_user,
}
use accelerator_pack_auth_se.Sso.Provisioning.Made.{
  AreKeyed, IsLinkedTo, linked-returns, touched-IsLinkedTo, single-scalar, scalar-none,
  found_or_created,
}

-- The link that a login adds is the one of its external identity.
linked :
    (provider_id : ℕ) (external_id : String) (email name : Value) (raw_claims : Option Dict)
    (now : Time) (db : Database) (user : User) (c : Bool)
    → AreKeyed db
    → select (is_link provider_id external_id) db.external_identities.rows ≡ []
    → (link_user provider_id external_id email name raw_claims now db).0 ≡ ok (user, c)
    → IsLinkedTo provider_id external_id user
        (link_user provider_id external_id email name raw_claims now db).1
unfolding link_user find_or_create select
linked provider_id external_id (text s) name raw_claims now db user c keyed none_yet h =
    let make = find_or_create (text s) name now in
    let row = λ (made : User × Bool). new_link made.0.id provider_id external_id s raw_claims now in
    let rest = λ (made : User × Bool). modify (add_link (row made)) >> pure made in
    let (made, returned, last) = bind-returns make rest db (user, c) h in
    let same : made ≡ (user, c) = cc in
    let (kept, alone) = found_or_created s name now db user c keyed (returned ∙ ap ok same) in
    subst (λ x. IsLinkedTo provider_id external_id user x.1)
      (sym (bind-goes make rest db (user, c) (returned ∙ ap ok same)))
      (
        row (user, c) (make db).1.external_identities.next_id,
        rw (==_refl provider_id, eq_refl external_id, kept, none_yet) refl,
        alone,
      )
linked provider_id external_id null name raw_claims now db user c keyed none_yet h = cc
linked provider_id external_id (number n) name raw_claims now db user c keyed none_yet h = cc
linked provider_id external_id (list xs shown) name raw_claims now db user c keyed none_yet h = cc
linked provider_id external_id (other b shown) name raw_claims now db user c keyed none_yet h = cc

provisioned-IsLinkedTo :
    (provider_id : ℕ) (external_id : String) (email name : Value) (raw_claims : Option Dict)
    (now : Time) (db : Database) (user : User) (c : Bool)
    → AreKeyed db
    → (jit_provision_user provider_id external_id email name raw_claims now db).0 ≡ ok (user, c)
    → IsLinkedTo provider_id external_id user
        (jit_provision_user provider_id external_id email name raw_claims now db).1
unfolding jit_provision_user linked_user one_where
provisioned-IsLinkedTo provider_id external_id email name raw_claims now db user c keyed h =
    let find = one_where (λ db. db.external_identities) (is_link provider_id external_id) in
    let create = link_user provider_id external_id email name raw_claims now in
    let log_in = linked_user provider_id external_id raw_claims now in
    let rest = λ (link : Option ExternalIdentity). found_or create link log_in in
    let reads =
      one_where-IsReader (λ db. db.external_identities) (is_link provider_id external_id) in
    let (o, returned, last) = bind-ok find rest db (user, c) reads h in
    subst (λ x. IsLinkedTo provider_id external_id user x.1)
      (sym (bind-after find rest db o reads returned)) (either o returned last)
  where
    links : List ExternalIdentity
    links = select (is_link provider_id external_id) db.external_identities.rows

    either :
        (o : Option ExternalIdentity)
        → scalar_one_or_none links ≡ ok o
        → (found_or
            (link_user provider_id external_id email name raw_claims now)
            o
            (linked_user provider_id external_id raw_claims now)
            db).0
          ≡ ok (user, c)
        → IsLinkedTo provider_id external_id user
            (found_or
              (link_user provider_id external_id email name raw_claims now)
              o
              (linked_user provider_id external_id raw_claims now)
              db).1
    either none returned last =
        linked provider_id external_id email name raw_claims now db user c keyed
          (scalar-none links returned) last
    either (some link) returned last =
        let users = select (λ (u : User). u.id == link.user_id) db.users.rows in
        let touched = save_link (is_link provider_id external_id) (touch_link raw_claims now) db in
        let alone = single-scalar users touched user c last in
        subst (IsLinkedTo provider_id external_id user)
          (sym (continue-state (scalar_one users) (λ u. pure (u, false)) touched λ u. refl))
          (touched-IsLinkedTo provider_id external_id raw_claims now link user db
            (scalar_one_or_none-some links link returned) alone)

-- After a login of an external identity that returned an account, a login of the same external
-- identity returns the same account and does not make one, whatever the email, the name and the other
-- claims it then comes with. The condition is that the keys of accounts differ before the first.
pub jit_provision_user-again :
    (provider_id : ℕ) (external_id : String) (email name : Value) (raw_claims : Option Dict)
    (now : Time) (email' name' : Value) (raw_claims' : Option Dict) (later : Time) (db : Database)
    (user : User) (c : Bool)
    → AreKeyed db
    → (jit_provision_user provider_id external_id email name raw_claims now db).0 ≡ ok (user, c)
    → (jit_provision_user provider_id external_id email' name' raw_claims' later
        (jit_provision_user provider_id external_id email name raw_claims now db).1).0
      ≡ ok (user, false)
jit_provision_user-again provider_id external_id email name raw_claims now email' name' raw_claims'
      later db user c keyed h =
    linked-returns provider_id external_id email' name' raw_claims' later user _
      (provisioned-IsLinkedTo provider_id external_id email name raw_claims now db user c keyed h)
