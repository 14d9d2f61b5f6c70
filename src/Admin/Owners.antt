-- ===== src/Admin/Owners.antt =====
-- The limit on the service accounts of one owner.
use accelerator_pack_auth_se.Prelude.{
  ℕ, ◌+◌, ◌≤◌, String, ◌≡◌, refl, sym, subst, Result, ok, err, arith, leb, ◌==◌, select, Bool-cases,
  inl, inr, if◌then◌else◌,
}
use accelerator_pack_auth_se.Exec.{continue-keeps, IsReader, bind-IsReader, continue}
use accelerator_pack_auth_se.Models.{Time}
use accelerator_pack_auth_se.Models.Rows.{User}
use accelerator_pack_auth_se.Models.Database.{Database}
use accelerator_pack_auth_se.External.{External}
use accelerator_pack_auth_se.Config.{Settings}
use accelerator_pack_auth_se.Audit.{log_audit}
use accelerator_pack_auth_se.Clients.{Accounts, FreshClient, create_client, count_clients_for_owner}
use accelerator_pack_auth_se.Tokens.{require_admin}
use accelerator_pack_auth_se.Tokens.Guards.{require_admin-state}
use accelerator_pack_auth_se.Admin.{
  ServiceAccountCreate, require_client_credentials_enabled, require_client_admin, create_for,
  create_service_account,
}

module _ (ext : External) (settings : Settings) where
  require_client_admin-state :
      (now : Time) (token : String) → IsReader (require_client_admin ext settings now token)
  unfolding require_client_admin require_client_credentials_enabled
  require_client_admin-state now token =
      bind-IsReader (require_admin ext settings now token) _
        (require_admin-state ext settings now token)
        λ admin.
          bind-IsReader (require_client_credentials_enabled ext settings) _ (λ db. refl)
            λ done db. refl

  -- No owner has more accounts than the limit.
  abbrev pub IsWithinLimit : Accounts → Type 0
  IsWithinLimit t =
      (owner_id : ℕ) → count_clients_for_owner owner_id t ≤ settings.client_max_per_owner

  create_client-count :
      (fresh : FreshClient) (now : Time) (req : ServiceAccountCreate) (id owner_id : ℕ)
      (t : Accounts)
      → count_clients_for_owner owner_id
          (create_client ext.bcrypt ext.json fresh id req.name req.description req.scopes
            req.expires_at now t).1
        ≤ count_clients_for_owner owner_id t + (if id == owner_id then 1 else 0)
  unfolding create_client count_clients_for_owner select
  create_client-count fresh now req id owner_id t = ground arith

  create_for-accounts :
      (fresh : FreshClient) (now : Time) (req : ServiceAccountCreate) (admin : User) (db : Database)
      → (create_for ext settings fresh now req admin db).1.service_accounts ≡ (
          if leb settings.client_max_per_owner
            (count_clients_for_owner admin.id db.service_accounts)
          then db.service_accounts
          else (create_client ext.bcrypt ext.json fresh admin.id req.name req.description req.scopes
              req.expires_at now db.service_accounts).1)
  unfolding create_for log_audit
  create_for-accounts fresh now req admin db =
      elim (Bool-cases (
        leb settings.client_max_per_owner (count_clients_for_owner admin.id db.service_accounts))) [
          | inl e ↦ rw e refl
          | inr e ↦ rw e (
              continue-keeps {S = Database} (λ (d : Database). d.service_accounts)
                (create_client ext.bcrypt ext.json fresh admin.id req.name req.description
                  req.scopes req.expires_at now db.service_accounts).0
                _ _ λ c. refl)
        ]

  create_for-IsWithinLimit :
      (fresh : FreshClient) (now : Time) (req : ServiceAccountCreate) (admin : User) (db : Database)
      → IsWithinLimit db.service_accounts
      → IsWithinLimit (create_for ext settings fresh now req admin db).1.service_accounts
  create_for-IsWithinLimit fresh now req admin db h owner_id =
      rw (create_for-accounts fresh now req admin db) (
        ground (
          arith,
          h owner_id,
          create_client-count fresh now req admin.id owner_id db.service_accounts,
        ))

  -- The handler that creates service accounts keeps every owner within the limit, whoever calls it
  -- and whatever it comes to.
  pub create_service_account-IsWithinLimit :
      (fresh : FreshClient) (now : Time) (token : String) (req : ServiceAccountCreate)
      (db : Database)
      → IsWithinLimit db.service_accounts
      → IsWithinLimit
          (create_service_account ext settings fresh now token req db).1.service_accounts
  unfolding create_service_account
  create_service_account-IsWithinLimit fresh now token req db h =
      subst
        (λ s.
          IsWithinLimit
            (continue (require_client_admin ext settings now token db).0
              (create_for ext settings fresh now req) s).1.service_accounts)
        (sym (require_client_admin-state now token db))
        (after (require_client_admin ext settings now token db).0)
    where
      after :
          (r : Result User)
          → IsWithinLimit (continue r (create_for ext settings fresh now req) db).1.service_accounts
      after (ok admin) = create_for-IsWithinLimit fresh now req admin db h
      after (err e) = h
