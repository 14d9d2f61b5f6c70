-- ===== src/Clients/Saving.antt =====
-- Calls of clients.py that load an account, change it and save it.
use accelerator_pack_auth_se.Prelude.{
  List, [], ◌∷◌, ◌≡◌, refl, Bool, true, Option, none, some, Result, ok, err, arith, all, select,
}
use accelerator_pack_auth_se.Exec.{Exec, found_or, continue, pure, ◌>>=◌, ◌>>◌}
use accelerator_pack_auth_se.Table.{update_where, scalar_one_or_none}
use accelerator_pack_auth_se.Table.Laws.{scalar_one_or_none-some}
use accelerator_pack_auth_se.Models.Rows.{ServiceAccount}
use accelerator_pack_auth_se.Clients.{Accounts, has_id, save}

-- The call changes the accounts in no way, or replaces a row that the query finds.
unfoldable pub save_found :
    {B : Type 0}
    → (ServiceAccount → Bool)
    → (ServiceAccount → ServiceAccount)
    → (ServiceAccount → B)
    → B
    → Exec Accounts B
save_found p g result missing = do
  account ← λ t. (scalar_one_or_none (select p t.rows), t)
  found_or (pure missing) account λ a. do save (g a); pure (result a)

pub all-head :
    (q p : ServiceAccount → Bool) (xs : List ServiceAccount) (a : ServiceAccount)
    → all q xs ≡ true
    → select p xs ≡ a ∷ []
    → q a ≡ true
unfolding all select
all-head q p [] a h e = cc
all-head q p (x ∷ xs) a h e = ground (arith, all-head q p xs a)

pub all-update_where :
    (q p : ServiceAccount → Bool) (a : ServiceAccount) (xs : List ServiceAccount)
    → q a ≡ true
    → all q xs ≡ true
    → all q (update_where p (λ old. a) xs) ≡ true
unfolding all update_where
all-update_where q p a [] h e = refl
all-update_where q p a (x ∷ xs) h e = ground (arith, all-update_where q p a xs)

pub select-test :
    (p : ServiceAccount → Bool) (xs : List ServiceAccount) (a : ServiceAccount)
    → select p xs ≡ a ∷ []
    → p a ≡ true
unfolding select
select-test p [] a e = cc
select-test p (x ∷ xs) a e = ground (arith, select-test p xs a)

pub save_found-all :
    {B : Type 0} (q p : ServiceAccount → Bool) (g : ServiceAccount → ServiceAccount)
    (result : ServiceAccount → B) (missing : B) (t : Accounts)
    → ((a : ServiceAccount) → q a ≡ true → q (g a) ≡ true)
    → all q t.rows ≡ true
    → (all q (save_found p g result missing t).1.rows ≡ true)
      × ((save_found p g result missing t).1.next_id ≡ t.next_id)
unfolding save_found save
save_found-all q p g result missing t keeps h = go (scalar_one_or_none (select p t.rows)) refl
  where
    go :
        (found : Result (Option ServiceAccount))
        → scalar_one_or_none (select p t.rows) ≡ found
        → (all q
              (continue found
                (λ account. found_or (pure missing) account λ a. (save (g a) >> pure (result a)))
                t).1.rows
            ≡ true)
          × ((continue found
                (λ account. found_or (pure missing) account λ a. (save (g a) >> pure (result a)))
                t).1.next_id
              ≡ t.next_id)
    go (err e) _ = (h, refl)
    go (ok none) _ = (h, refl)
    go (ok (some a)) e = (
      all-update_where q (has_id (g a).id) (g a) t.rows
          (keeps a (all-head q p t.rows a h (scalar_one_or_none-some _ a e))) h,
      refl,
    )
