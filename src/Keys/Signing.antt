-- ===== src/Keys/Signing.antt =====
-- The key that signs: it is active, and found again by its kid.
use accelerator_pack_auth_se.Prelude.{
  ◌≤◌, String, ◌≡◌, refl, ap, true, Option, none, some, ok, err, integrity_error, subst, arith,
  eq_refl, any, select, length, head?, Bool-cases, inl, inr, ok-injective,
}
use accelerator_pack_auth_se.Table.{insert_row, order_desc, scalar_one_or_none, any-select}
use accelerator_pack_auth_se.Table.Membership.{In-head?, In-order_desc, In-select, select-In}
use accelerator_pack_auth_se.Models.{Time}
use accelerator_pack_auth_se.Models.Rows.{SigningKey}
use accelerator_pack_auth_se.Keys.{
  Keys, FreshKey, new_key, has_kid, is_active, or_create, create_signing_key,
  get_active_signing_key, get_key_by_kid,
}

abbrev IsFound : SigningKey → Keys → Type 0
IsFound key t = ((get_key_by_kid key.kid t).0 ≡ ok (some key)) × (is_active key ≡ true)

create-IsFound :
    (fresh : FreshKey) (now : Time) (t : Keys) (key : SigningKey)
    → (create_signing_key fresh now t).0 ≡ ok key
    → IsFound key (create_signing_key fresh now t).1
unfolding create_signing_key get_key_by_kid select
create-IsFound fresh now t key h = elim (Bool-cases (any (has_kid fresh.kid) t.rows)) [
  | inl e ↦ absurd (clash (rw e at h))
  | inr e ↦ rw e (
      subst (λ k. IsFound k (insert_row (new_key fresh now) t)) (ok-injective _ _ (rw e at h))
        (ground (arith, eq_refl fresh.kid, any-select (has_kid fresh.kid) t.rows e), refl))
]
  where
    clash : {A : Type 0} {a : A} → err integrity_error ≡ ok a → ⊥
    clash h = cc

-- The key that signs, whether it was there or is created now, is active, and is found by its kid
-- afterwards; no kid belongs to two keys before.
pub get_active_signing_key-found :
    (fresh : FreshKey) (now : Time) (t : Keys) (key : SigningKey)
    → ((kid : String) → length (select (has_kid kid) t.rows) ≤ 1)
    → (get_active_signing_key fresh now t).0 ≡ ok key
    → ((get_key_by_kid key.kid (get_active_signing_key fresh now t).1).0 ≡ ok (some key))
      × (is_active key ≡ true)
unfolding get_active_signing_key or_create get_key_by_kid
get_active_signing_key-found fresh now t key unique h =
    go (head? (order_desc (λ k. k.created_at) (select is_active t.rows))) refl h
  where
    go :
        (found : Option SigningKey)
        → head? (order_desc (λ k. k.created_at) (select is_active t.rows)) ≡ found
        → (or_create fresh now found t).0 ≡ ok key
        → IsFound key (or_create fresh now found t).1
    go none e h = create-IsFound fresh now t key h
    go (some k) e h =
        let (there, active) =
          In-select is_active t.rows k (In-order_desc (λ k. k.created_at) _ k (In-head? _ k e)) in
        subst (λ k. IsFound k t) (ok-injective _ _ h)
          (
            ap scalar_one_or_none
                (select-In (has_kid k.kid) t.rows k there (eq_refl k.kid) (unique k.kid)),
            active,
          )
