-- ===== src/Clients/Created.antt =====
-- What can be done with a service account that has just been created.
use accelerator_pack_auth_se.Prelude.{
  ℕ, String, List, ◌≡◌, refl, true, false, not, Option, none, some, ok, leb, eq_refl, any, select,
}
use accelerator_pack_auth_se.Table.{any-select}
use accelerator_pack_auth_se.Models.{Time}
use accelerator_pack_auth_se.Models.Rows.{ServiceAccount}
use accelerator_pack_auth_se.External.{JsonCodec, Bcrypt, IsCodec, IsHash}
use accelerator_pack_auth_se.Scopes.{serialize_scopes, deserialize_scopes, decoded_list}
use accelerator_pack_auth_se.Clients.{
  Accounts, FreshClient, generate_client_id, generate_client_secret, has_client_id, new_account,
  create_client, get_client_by_client_id, verify_secret, is_client_usable,
}

-- Creation hands out the secret of a new account that its public identifier finds, that this secret
-- authenticates, that is usable until it expires, and that is stamped with the scopes asked for.
pub create_client-usable :
    (bcrypt : Bcrypt) (json : JsonCodec) (fresh : FreshClient) (owner_id : ℕ) (name : String)
    (description : Option String) (scopes : List String) (expires_at : Option Time)
    (now later : Time) (t : Accounts)
    → IsHash bcrypt (generate_client_secret fresh)
    → IsCodec json scopes
    → any (has_client_id (generate_client_id fresh)) t.rows ≡ false
    → let (created, t') =
        create_client bcrypt json fresh owner_id name description scopes expires_at now t in
      (account : ServiceAccount) × (created ≡ ok (account, generate_client_secret fresh))
      × ((get_client_by_client_id (generate_client_id fresh) t').0 ≡ ok (some account))
      × (verify_secret bcrypt (generate_client_secret fresh) account.client_secret_hash ≡ true)
      × (is_client_usable later account
          ≡ elim expires_at [ none ↦ true | some at ↦ not (leb at later) ])
      × (deserialize_scopes json (some account.scopes) ≡ scopes)
unfolding create_client get_client_by_client_id verify_secret is_client_usable deserialize_scopes
    serialize_scopes decoded_list select
create_client-usable bcrypt json fresh owner_id name description scopes expires_at now later t hash
      codec unique =
    (
      new_account bcrypt json fresh owner_id name description scopes expires_at now t.next_id,
      rw unique refl,
      rw unique (
          rw
            (
              eq_refl (generate_client_id fresh),
              any-select (has_client_id (generate_client_id fresh)) t.rows unique,
            )
            refl),
      rw (hash.accepts fresh.salt) refl,
      refl,
      rw (codec.dumps_nonempty, codec.loads-dumps) refl,
    )
