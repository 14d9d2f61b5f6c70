-- ===== src/Clients/Tests.antt =====
-- Witnesses for the theorems on service accounts.
use accelerator_pack_auth_se.Prelude.{
  [], ◌∷◌, ◌≡◌, refl, true, not, ◌||◌, none, some, all, arith, select,
}
use accelerator_pack_auth_se.External.{IsHash, IsCodec}
use accelerator_pack_auth_se.ScopeString.{split, is_space, join}
use accelerator_pack_auth_se.Samples.{json, bcrypt, robot, now, db}
use accelerator_pack_auth_se.Clients.{
  FreshClient, ClientUpdate, unset, generate_client_secret, stamp_revoked, has_id, get_client_by_id,
  save, revoke_client, is_client_usable,
}
use accelerator_pack_auth_se.Clients.Revoked.{updating, run, revoke_client-final}

-- An attempt to activate the account again.
abbrev activation : ClientUpdate
activation = record {
  name = none;
  description = unset;
  scopes = none;
  expires_at = unset;
  is_active = some true;
}

revoke_client-final_example :
    all
      (λ b. not (has_id 1 b) || not (is_client_usable now b))
      (run bcrypt json
        (updating 1 activation now ∷ [])
        (revoke_client 1 now db.service_accounts).1).rows
    ≡ true
unfolding revoke_client get_client_by_id select save
revoke_client-final_example =
    revoke_client-final bcrypt json 1 now now db.service_accounts (stamp_revoked now robot)
      (updating 1 activation now ∷ []) (omega arith) refl

abbrev fresh : FreshClient
fresh = record { id_token = "2"; secret_token = "2"; salt = "" }

hash : IsHash bcrypt (generate_client_secret fresh)
hash = record { accepts = λ salt. refl }

codec : IsCodec json ("read" ∷ [])
unfolding split is_space join
codec = record { loads-dumps = refl; dumps_nonempty = refl }
