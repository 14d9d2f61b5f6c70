-- ===== src/Clients.antt =====
-- clients.py: the lifecycle of service accounts, over their table, and the check of a secret. The
-- random values of one call come from outside.
pub mod Saving
pub mod Revoked
pub mod Created
mod Tests
use accelerator_pack_auth_se.Prelude.{
  ℕ, String, List, Bool, true, false, not, ◌&&◌, ◌||◌, Option, none, some, Result, ok, err,
  integrity_error, leb, ◌==◌, str_eq, any, select, length, is_some, if◌then◌else◌,
}
use accelerator_pack_auth_se.Exec.{Exec, found_or, pure, modify, lift, ◌>>=◌, ◌>>◌}
use accelerator_pack_auth_se.Table.{Table, insert_row, update_where, scalar_one_or_none, order_desc}
use accelerator_pack_auth_se.Models.{Time}
use accelerator_pack_auth_se.Models.Rows.{ServiceAccount}
use accelerator_pack_auth_se.External.{JsonCodec, Bcrypt}
use accelerator_pack_auth_se.Scopes.{serialize_scopes, deserialize_scopes}
use Prim.Native.String as Text

abbrev pub Accounts : Type 0
Accounts = Table ServiceAccount

-- Two values of `secrets.token_urlsafe` and one of `bcrypt.gensalt`.
pub record FreshClient : Type 0 where
  pub id_token : String
  pub secret_token : String
  pub salt : String

abbrev pub client_id_prefix : String
client_id_prefix = "cli_"

abbrev pub client_secret_prefix : String
client_secret_prefix = "csk_"

abbrev pub generate_client_id : FreshClient → String
generate_client_id fresh = Text.◌++◌ client_id_prefix fresh.id_token

abbrev pub generate_client_secret : FreshClient → String
generate_client_secret fresh = Text.◌++◌ client_secret_prefix fresh.secret_token

-- An argument of `update_client`: `_UNSET`, or the new value of the column, which may be NULL.
pub data Patch {ℓ} (A : Type ℓ) : Type ℓ where
  unset : Patch A
  set_to : Option A → Patch A

abbrev pub patched {ℓ} : {A : Type ℓ} → Patch A → Option A → Option A
patched unset old = old
patched (set_to new) old = new

abbrev pub replaced {ℓ} : {A : Type ℓ} → Option A → A → A
replaced none old = old
replaced (some new) old = new

pub record ClientUpdate : Type 0 where
  pub name : Option String
  pub description : Patch String
  pub scopes : Option (List String)
  pub expires_at : Patch Time
  pub is_active : Option Bool

abbrev pub has_client_id : String → ServiceAccount → Bool
has_client_id client_id a = str_eq a.client_id client_id

abbrev pub has_id : ℕ → ServiceAccount → Bool
has_id id a = a.id == id

unfoldable pub get_client_by_client_id : String → Exec Accounts (Option ServiceAccount)
get_client_by_client_id client_id t =
    (scalar_one_or_none (select (has_client_id client_id) t.rows), t)

unfoldable pub get_client_by_id : ℕ → Exec Accounts (Option ServiceAccount)
get_client_by_id account_id t = (scalar_one_or_none (select (has_id account_id) t.rows), t)

-- A loaded account is changed and committed: the row with its key.
unfoldable pub save : ServiceAccount → Exec Accounts Unit
save account =
    modify λ t. record t { rows = update_where (has_id account.id) (λ old. account) t.rows }

abbrev pub stamp_revoked : Time → ServiceAccount → ServiceAccount
stamp_revoked now a = record a { is_active = false; revoked_at = some now }

-- `if is_active is False and account.revoked_at is None`
unfoldable pub set_active : Option Bool → Time → ServiceAccount → ServiceAccount
set_active none now a = a
set_active (some true) now a = record a { is_active = true }
set_active (some false) now a =
    if is_some a.revoked_at
    then record a { is_active = false }
    else record a { is_active = false; revoked_at = some now }

unfoldable pub revoke_client : ℕ → Time → Exec Accounts (Option ServiceAccount)
revoke_client account_id now = do
  account ← get_client_by_id account_id
  found_or (pure none) account λ a. do save (stamp_revoked now a); pure (some (stamp_revoked now a))

unfoldable pub count_clients_for_owner : ℕ → Accounts → ℕ
count_clients_for_owner owner_id t = length (select (λ a. a.owner_user_id == owner_id) t.rows)

abbrev pub list_clients_for_owner : ℕ → Accounts → List ServiceAccount
list_clients_for_owner owner_id t =
    order_desc (λ a. a.created_at) (select (λ a. a.owner_user_id == owner_id) t.rows)

abbrev pub list_all_clients : Accounts → List ServiceAccount
list_all_clients t = order_desc (λ a. a.created_at) t.rows

unfoldable pub update_last_used : String → Option String → Time → Exec Accounts Unit
update_last_used client_id ip now = do
  account ← get_client_by_client_id client_id
  found_or (pure tt) account λ a. save (record a { last_used_at = some now; last_used_ip = ip })

unfoldable pub is_client_usable : Time → ServiceAccount → Bool
is_client_usable now account =
    if not account.is_active
    then false
    else if is_some account.revoked_at
    then false
    else elim account.expires_at [ none ↦ true | some at ↦ not (leb at now) ]

abbrev pub or_mismatch : Option Bool → Bool
or_mismatch none = false
or_mismatch (some matches) = matches

module _ (bcrypt : Bcrypt) where
  abbrev pub hash_secret : String → String → String
  hash_secret plain salt = bcrypt.hashpw plain salt

  -- A `ValueError` is a mismatch.
  unfoldable pub verify_secret : String → String → Bool
  verify_secret plain hashed = or_mismatch (bcrypt.checkpw plain hashed)

  unfoldable pub rotate_secret : FreshClient → ℕ → Exec Accounts (Option (ServiceAccount × String))
  rotate_secret fresh account_id = do
    account ← get_client_by_id account_id
    found_or (pure none) account λ a. do
      let new_plain = generate_client_secret fresh
      let a' = record a { client_secret_hash = hash_secret new_plain fresh.salt }
      save a'
      pure (some (a', new_plain))

  module _ (json : JsonCodec) where
    abbrev pub new_account :
        FreshClient
        → ℕ
        → String
        → Option String
        → List String
        → Option Time
        → Time
        → ℕ
        → ServiceAccount
    new_account fresh owner_id name description scopes expires_at now id = record {
      id = id;
      client_id = generate_client_id fresh;
      client_secret_hash = hash_secret (generate_client_secret fresh) fresh.salt;
      name = name;
      description = description;
      scopes = serialize_scopes json scopes;
      owner_user_id = owner_id;
      is_active = true;
      expires_at = expires_at;
      created_at = now;
      revoked_at = none;
      last_used_at = none;
      last_used_ip = none;
    }

    -- The column `client_id` is unique.
    unfoldable pub create_client :
        FreshClient
        → ℕ
        → String
        → Option String
        → List String
        → Option Time
        → Time
        → Exec Accounts (ServiceAccount × String)
    create_client fresh owner_id name description scopes expires_at now t =
        let account = new_account fresh owner_id name description scopes expires_at now in
        if any (has_client_id (generate_client_id fresh)) t.rows
        then (err integrity_error, t)
        else (ok (account t.next_id, generate_client_secret fresh), insert_row account t)

-- `service_account_to_dict`; the secret is there on creation and rotation alone.
pub record ClientView : Type 0 where
  pub id : ℕ
  pub client_id : String
  pub name : String
  pub description : Option String
  pub scopes : List String
  pub owner_user_id : ℕ
  pub is_active : Bool
  pub expires_at : Option Time
  pub created_at : Time
  pub revoked_at : Option Time
  pub last_used_at : Option Time
  pub last_used_ip : Option String
  pub client_secret : Option String

module _ (json : JsonCodec) where
  abbrev pub apply_update : ClientUpdate → Time → ServiceAccount → ServiceAccount
  apply_update u now a = set_active u.is_active now (record a {
    name = replaced u.name a.name;
    description = patched u.description a.description;
    scopes = elim u.scopes [ none ↦ a.scopes | some scopes ↦ serialize_scopes json scopes ];
    expires_at = patched u.expires_at a.expires_at;
  })

  unfoldable pub update_client : ℕ → ClientUpdate → Time → Exec Accounts (Option ServiceAccount)
  update_client account_id u now = do
    account ← get_client_by_id account_id
    found_or (pure none) account
        λ a. do save (apply_update u now a); pure (some (apply_update u now a))

  pub service_account_to_dict : ServiceAccount → Option String → ClientView
  service_account_to_dict account plaintext = record {
    id = account.id;
    client_id = account.client_id;
    name = account.name;
    description = account.description;
    scopes = deserialize_scopes json (some account.scopes);
    owner_user_id = account.owner_user_id;
    is_active = account.is_active;
    expires_at = account.expires_at;
    created_at = account.created_at;
    revoked_at = account.revoked_at;
    last_used_at = account.last_used_at;
    last_used_ip = account.last_used_ip;
    client_secret = plaintext;
  }
