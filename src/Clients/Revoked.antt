-- ===== src/Clients/Revoked.antt =====
-- What a revoked service account can become by later calls of clients.py.
use accelerator_pack_auth_se.Prelude.{
  ℕ, ◌<◌, String, List, [], ◌∷◌, ◌≡◌, refl, Bool, true, false, not, ◌||◌, Option, none, some,
  Result, ok, err, arith, any, all, select, is_some, if◌then◌else◌,
}
use accelerator_pack_auth_se.Exec.{Exec, found_or, continue, pure, ◌>>◌}
use accelerator_pack_auth_se.Table.{insert_row, update_where, scalar_one_or_none}
use accelerator_pack_auth_se.Table.Laws.{scalar_one_or_none-some}
use accelerator_pack_auth_se.Models.{Time}
use accelerator_pack_auth_se.Models.Rows.{ServiceAccount}
use accelerator_pack_auth_se.External.{JsonCodec, Bcrypt}
use accelerator_pack_auth_se.Clients.{
  Accounts, FreshClient, ClientUpdate, has_id, has_client_id, get_client_by_id,
  get_client_by_client_id, save, set_active, stamp_revoked, new_account, create_client,
  rotate_secret, revoke_client, update_client, generate_client_id, apply_update, update_last_used,
  is_client_usable, generate_client_secret, hash_secret,
}
use accelerator_pack_auth_se.Clients.Saving.{save_found, select-test, save_found-all}

-- The row is another one, or it is stamped as revoked.
abbrev gone : ℕ → ServiceAccount → Bool
gone id a = not (has_id id a) || is_some a.revoked_at

gone-set_active :
    (id : ℕ) (active : Option Bool) (now : Time) (a : ServiceAccount)
    → gone id a ≡ true
    → gone id (set_active active now a) ≡ true
unfolding set_active
gone-set_active id none now a h = h
gone-set_active id (some true) now a h = h
gone-set_active id (some false) now a h = ground arith

gone-stamp_revoked :
    (id : ℕ) (now : Time) (a : ServiceAccount) → gone id (stamp_revoked now a) ≡ true
gone-stamp_revoked id now a = ground arith

gone-usable :
    (id : ℕ) (now : Time) (a : ServiceAccount)
    → gone id a ≡ true
    → (not (has_id id a) || not (is_client_usable now a)) ≡ true
unfolding is_client_usable
gone-usable id now a h = ground arith

all-usable :
    (id : ℕ) (now : Time) (xs : List ServiceAccount)
    → all (gone id) xs ≡ true
    → all (λ a. not (has_id id a) || not (is_client_usable now a)) xs ≡ true
unfolding all
all-usable id now [] h = refl
all-usable id now (x ∷ xs) h = ground (arith, gone-usable id now x, all-usable id now xs)

module _ (bcrypt : Bcrypt) (json : JsonCodec) where
  pub data Call : Type 0 where
    creating : FreshClient → ℕ → String → Option String → List String → Option Time → Time → Call
    rotating : FreshClient → ℕ → Call
    revoking : ℕ → Time → Call
    updating : ℕ → ClientUpdate → Time → Call
    using : String → Option String → Time → Call

  -- The accounts after a call, whatever it returned or raised.
  unfoldable pub step : Call → Accounts → Accounts
  step (creating fresh owner name description scopes expires_at now) t =
      (create_client bcrypt json fresh owner name description scopes expires_at now t).1
  step (rotating fresh id) t = (rotate_secret bcrypt fresh id t).1
  step (revoking id now) t = (revoke_client id now t).1
  step (updating id u now) t = (update_client json id u now t).1
  step (using client_id ip now) t = (update_last_used client_id ip now t).1

  unfoldable pub run : List Call → Accounts → Accounts
  run [] t = t
  run (c ∷ cs) t = run cs (step c t)

  IsGone : ℕ → Accounts → Type 0
  IsGone id t = (all (gone id) t.rows ≡ true) × (id < t.next_id)

  kept :
      (id : ℕ) (t s : Accounts)
      → id < t.next_id
      → (all (gone id) s.rows ≡ true) × (s.next_id ≡ t.next_id)
      → IsGone id s
  unfolding IsGone
  kept id t s h (rows, same) = (rows, omega arith)

  kept_by_insertion :
      {B : Type 0} (id : ℕ) (clash : Bool) (row : ℕ → ServiceAccount) (r : Result B) (s : Result B)
      (t : Accounts)
      → ((n : ℕ) → (row n).id ≡ n)
      → IsGone id t
      → IsGone id (if◌then◌else◌ {A = Result B × Accounts} clash (r, t) (s, insert_row row t)).1
  unfolding IsGone all
  kept_by_insertion id true row r s t own (h, k) = (h, k)
  kept_by_insertion id false row r s t own (h, k) = (ground (arith, own t.next_id), omega arith)

  step-IsGone : (id : ℕ) (c : Call) (t : Accounts) → IsGone id t → IsGone id (step c t)
  unfolding IsGone step create_client rotate_secret revoke_client update_client update_last_used
      get_client_by_id get_client_by_client_id save_found save
  step-IsGone id (creating fresh owner name description scopes expires_at now) t (h, k) =
      kept_by_insertion id (any (has_client_id (generate_client_id fresh)) t.rows)
        (new_account bcrypt json fresh owner name description scopes expires_at now) _ _ t
        (λ n. refl) (h, k)
  step-IsGone id (rotating fresh account_id) t (h, k) = kept id t _ k (
      save_found-all (gone id) (has_id account_id)
        (λ a. record a {
          client_secret_hash = hash_secret bcrypt (generate_client_secret fresh) fresh.salt;
        })
        (λ a. some (
          record a {
            client_secret_hash = hash_secret bcrypt (generate_client_secret fresh) fresh.salt;
          },
          generate_client_secret fresh,
        ))
        none t (λ a ha. ha) h)
  step-IsGone id (revoking account_id now) t (h, k) = kept id t _ k (
      save_found-all (gone id) (has_id account_id) (stamp_revoked now)
        (λ a. some (stamp_revoked now a)) none t (λ a ha. gone-stamp_revoked id now a) h)
  step-IsGone id (updating account_id u now) t (h, k) = kept id t _ k (
      save_found-all (gone id) (has_id account_id) (apply_update json u now)
        (λ a. some (apply_update json u now a)) none t
        (λ a ha. gone-set_active id u.is_active now _ ha) h)
  step-IsGone id (using client_id ip now) t (h, k) = kept id t _ k (
      save_found-all (gone id) (has_client_id client_id)
        (λ a. record a { last_used_at = some now; last_used_ip = ip }) (λ a. tt) tt t (λ a ha. ha)
        h)

  run-IsGone : (id : ℕ) (cs : List Call) (t : Accounts) → IsGone id t → IsGone id (run cs t)
  unfolding run
  run-IsGone id [] t h = h
  run-IsGone id (c ∷ cs) t h = run-IsGone id cs (step c t) (step-IsGone id c t h)

  all-stamped :
      (id : ℕ) (now : Time) (a : ServiceAccount) (xs : List ServiceAccount)
      → has_id id a ≡ true
      → all (gone id) (update_where (has_id a.id) (λ old. stamp_revoked now a) xs) ≡ true
  unfolding all update_where
  all-stamped id now a [] h = refl
  all-stamped id now a (x ∷ xs) h =
      ground (arith, all-stamped id now a xs h, gone-stamp_revoked id now a)

  revoke_client-IsGone :
      (id : ℕ) (now : Time) (t : Accounts) (a : ServiceAccount)
      → id < t.next_id
      → (revoke_client id now t).0 ≡ ok (some a)
      → IsGone id (revoke_client id now t).1
  unfolding revoke_client get_client_by_id save IsGone
  revoke_client-IsGone id now t a k h = go (scalar_one_or_none (select (has_id id) t.rows)) refl h
    where
      rest : Option ServiceAccount → Exec Accounts (Option ServiceAccount)
      rest account =
          found_or (pure none) account
            λ a. (save (stamp_revoked now a) >> pure (some (stamp_revoked now a)))

      go :
          (found : Result (Option ServiceAccount))
          → scalar_one_or_none (select (has_id id) t.rows) ≡ found
          → (continue found rest t).0 ≡ ok (some a)
          → IsGone id (continue found rest t).1
      go (err e) _ h = cc
      go (ok none) _ h = cc
      go (ok (some b)) e h = (
        all-stamped id now b t.rows
            (select-test (has_id id) t.rows b (scalar_one_or_none-some _ b e)),
        k,
      )

  -- Once a service account has been revoked, no later sequence of creations, secret rotations,
  -- revocations, updates (also those that set `is_active` again) and uses makes an account with its id
  -- usable at any instant; ids come from the identity column.
  pub revoke_client-final :
      (id : ℕ) (now later : Time) (t : Accounts) (a : ServiceAccount) (cs : List Call)
      → id < t.next_id
      → (revoke_client id now t).0 ≡ ok (some a)
      → all
          (λ b. not (has_id id b) || not (is_client_usable later b))
          (run cs (revoke_client id now t).1).rows
        ≡ true
  unfolding IsGone
  revoke_client-final id now later t a cs k h =
      all-usable id later _ (run-IsGone id cs _ (revoke_client-IsGone id now t a k h)).0
