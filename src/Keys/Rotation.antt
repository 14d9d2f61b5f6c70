-- ===== src/Keys/Rotation.antt =====
-- Rotation and revocation of signing keys.
use accelerator_pack_auth_se.Prelude.{
  String, List, [], ◌∷◌, ◌≡◌, refl, ap, false, Option, none, some, Result, ok, err, arith, any,
  select, length, ◌≤◌, str_eq, eq_iff, head?, Option-cases, inl, inr,
}
use accelerator_pack_auth_se.Exec.{continue}
use accelerator_pack_auth_se.Table.{update_where, order_desc, scalar_one_or_none, any-select}
use accelerator_pack_auth_se.Table.Laws.{
  length-select-update, length-select-update-le, select-update_apart, length-order_desc, head?-none,
  scalar_one_or_none-some, select-update_self,
}
use accelerator_pack_auth_se.Models.{Time}
use accelerator_pack_auth_se.Models.Rows.{SigningKey}
use accelerator_pack_auth_se.Keys.{
  Keys, FreshKey, new_key, has_kid, is_active, revoke_found, rotate_out, create_signing_key,
  get_active_signing_key, get_key_by_kid, rotate_active_key, revoke, revoke_key,
}

select-rotate_out :
    (now : Time) (ks : List SigningKey)
    → select is_active (update_where is_active (rotate_out now) ks) ≡ []
unfolding select update_where
select-rotate_out now [] = refl
select-rotate_out now (k ∷ ks) = ground (arith, select-rotate_out now ks)

any-rotate_out :
    (now : Time) (kid : String) (ks : List SigningKey)
    → any (has_kid kid) (update_where is_active (rotate_out now) ks) ≡ any (has_kid kid) ks
unfolding any update_where
any-rotate_out now kid [] = refl
any-rotate_out now kid (k ∷ ks) = ground (arith, any-rotate_out now kid ks)

-- With a kid that no key has, rotation succeeds and leaves exactly one active key, the new one;
-- the next signature is made with it, and asking for it changes nothing.
pub rotate_active_key-single :
    (fresh later : FreshKey) (now : Time) (t : Keys)
    → any (has_kid fresh.kid) t.rows ≡ false
    → let (r, t') = rotate_active_key fresh now t in
      (r ≡ ok (new_key fresh now t.next_id))
      × (select is_active t'.rows ≡ new_key fresh now t.next_id ∷ [])
      × (get_active_signing_key later now t' ≡ (r, t'))
unfolding rotate_active_key create_signing_key get_active_signing_key select order_desc
rotate_active_key-single fresh later now t h =
    ground (arith, any-rotate_out now fresh.kid t.rows, select-rotate_out now t.rows)

-- The calls that the service makes on the table of keys.
pub data Call : Type 0 where
  get_active : FreshKey → Time → Call
  rotate : FreshKey → Time → Call
  revoke_by_kid : String → Time → Call

pub step : Call → Keys → Keys
unfolding get_active_signing_key rotate_active_key revoke_key
step (get_active fresh now) t = (get_active_signing_key fresh now t).1
step (rotate fresh now) t = (rotate_active_key fresh now t).1
step (revoke_by_kid kid now) t = (revoke_key kid now t).1

pub run : Keys → List Call → Keys
run t [] = t
run t (c ∷ cs) = run (step c t) cs

-- No two keys have one kid, and no two keys are active.
pub record IsValid (t : Keys) : Type 0 where
  pub unique : (kid : String) → length (select (has_kid kid) t.rows) ≤ 1
  pub single : length (select is_active t.rows) ≤ 1

create_unique :
    (fresh : FreshKey) (now : Time) (t : Keys) (kid : String)
    → length (select (has_kid kid) t.rows) ≤ 1
    → length (select (has_kid kid) (create_signing_key fresh now t).1.rows) ≤ 1
unfolding create_signing_key select
create_unique fresh now t kid h =
    ground (arith, eq_iff fresh.kid kid, any-select (has_kid kid) t.rows)

create-single :
    (fresh : FreshKey) (now : Time) (t : Keys)
    → length (select is_active t.rows) ≡ 0
    → length (select is_active (create_signing_key fresh now t).1.rows) ≤ 1
unfolding create_signing_key select
create-single fresh now t h = ground arith

get_active-IsValid :
    (fresh : FreshKey) (now : Time) (t : Keys)
    → IsValid t
    → IsValid (get_active_signing_key fresh now t).1
unfolding get_active_signing_key
get_active-IsValid fresh now t v =
    elim (Option-cases (head? (order_desc (λ k. k.created_at) (select is_active t.rows)))) [
      | inl e ↦
          rw (e, get_active_signing_key)
            (record {
              unique = λ kid. create_unique fresh now t kid (v.unique kid);
              single = create-single fresh now t (
                  omega (
                    arith,
                    length-order_desc (λ k. k.created_at) (select is_active t.rows),
                    head?-none _ e,
                  ));
            })
      | inr (k, e) ↦ rw (e, get_active_signing_key) v
    ]

rotate-IsValid :
    (fresh : FreshKey) (now : Time) (t : Keys)
    → IsValid t
    → IsValid (rotate_active_key fresh now t).1
unfolding rotate_active_key
rotate-IsValid fresh now t v = record {
  unique = λ kid. create_unique fresh now _ kid (
      omega (
        arith,
        length-select-update (has_kid kid) is_active (rotate_out now) t.rows (λ k. refl),
        v.unique kid,
      ));
  single = create-single fresh now _ (ap length (select-rotate_out now t.rows));
}

revoked-IsValid :
    (kid : String) (now : Time) (t : Keys) (r : Result (Option SigningKey))
    → IsValid t
    → IsValid (continue r (revoke_found kid now) t).1
unfolding revoke_found
revoked-IsValid kid now t (err e) v = v
revoked-IsValid kid now t (ok none) v = v
revoked-IsValid kid now t (ok (some k)) v = record {
  unique = λ j. omega (
    arith,
    length-select-update (has_kid j) (has_kid kid) (revoke now) t.rows (λ k. refl),
    v.unique j,
  );
  single = omega (
    arith,
    length-select-update-le is_active (has_kid kid) (revoke now) t.rows (λ k p. cc),
    v.single,
  );
}

step-IsValid : (c : Call) (t : Keys) → IsValid t → IsValid (step c t)
unfolding step get_key_by_kid
step-IsValid (get_active fresh now) t v = get_active-IsValid fresh now t v
step-IsValid (rotate fresh now) t v = rotate-IsValid fresh now t v
step-IsValid (revoke_by_kid kid now) t v =
    revoked-IsValid kid now t (scalar_one_or_none (select (has_kid kid) t.rows)) v

-- From a valid table, every history of calls, those that fail included, keeps the kids distinct
-- and at most one key active.
pub run-IsValid : (t : Keys) (cs : List Call) → IsValid t → IsValid (run t cs)
unfolding run
run-IsValid t [] v = v
run-IsValid t (c ∷ cs) v = run-IsValid (step c t) cs (step-IsValid c t v)

-- A revoked key is found as revoked.
pub revoke_key-found :
    (kid : String) (now : Time) (t : Keys) (k : SigningKey)
    → (get_key_by_kid kid t).0 ≡ ok (some k)
    → let (r, t') = revoke_key kid now t in
      (r ≡ ok (some (revoke now k))) × ((get_key_by_kid kid t').0 ≡ ok (some (revoke now k)))
unfolding revoke_key get_key_by_kid
revoke_key-found kid now t k found = ground (
  arith,
  scalar_one_or_none-some (select (has_kid kid) t.rows) k found,
  select-update_self (has_kid kid) (revoke now) t.rows (λ x. refl),
)

-- Revocation of a key that is found marks it: its kid is then found revoked, and what is found under
-- another kid is as before.
pub revoke_key_lem :
    (kid j : String) (now : Time) (t : Keys) (k : SigningKey)
    → (get_key_by_kid kid t).0 ≡ ok (some k)
    → str_eq kid j ≡ false
    → let (r, t') = revoke_key kid now t in
      (r ≡ ok (some (revoke now k)))
      × ((get_key_by_kid kid t').0 ≡ ok (some (revoke now k)))
      × ((get_key_by_kid j t').0 ≡ (get_key_by_kid j t).0)
unfolding revoke_key get_key_by_kid
revoke_key_lem kid j now t k found other = ground (
  arith,
  scalar_one_or_none-some (select (has_kid kid) t.rows) k found,
  select-update_self (has_kid kid) (revoke now) t.rows (λ x. refl),
  select-update_apart (has_kid j) (has_kid kid) (revoke now) t.rows
      (λ x p. ground (arith, eq_iff x.kid kid, eq_iff x.kid j, eq_iff kid j))
      (λ x p. ground (arith, eq_iff x.kid kid, eq_iff x.kid j, eq_iff kid j)),
)

-- A revocation that finds a key leaves it found as revoked.
pub revoke_key-some :
    (kid : String) (now : Time) (t : Keys) (r : SigningKey)
    → (revoke_key kid now t).0 ≡ ok (some r)
    → (k : SigningKey) × ((get_key_by_kid kid (revoke_key kid now t).1).0
        ≡ ok (some (revoke now k)))
unfolding revoke_key revoke_found get_key_by_kid
revoke_key-some kid now t r h = go (scalar_one_or_none (select (has_kid kid) t.rows)) refl h
  where
    go :
        (found : Result (Option SigningKey))
        → scalar_one_or_none (select (has_kid kid) t.rows) ≡ found
        → (continue found (revoke_found kid now) t).0 ≡ ok (some r)
        → (k : SigningKey) × ((get_key_by_kid kid (revoke_key kid now t).1).0
            ≡ ok (some (revoke now k)))
    go (ok (some k)) e h = (k, (revoke_key-found kid now t k e).1)
    go (ok none) e h = cc
    go (err x) e h = cc
