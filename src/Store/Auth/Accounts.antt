-- ===== src/Store/Auth/Accounts.antt =====
-- CreatePendingAccount, DeletePendingAccount, getWebAuthnAccount, Account and AddCredential of
-- server/internal/store/auth.go.
use along.Prelude.{
  ℕ, String, Bool, true, false, not, ◌&&◌, ◌||◌, Option, none, some, List, [], ◌∷◌, ◌++◌, map, ◌==◌,
  leb, any, find, select, delete, count, sort_by, is_none, str_eq, bytes_eq, char_length, between,
  if◌then◌else◌,
}
use along.Domain.Models.{Account}
use along.Store.Result.{ok, err, not_found, unique_violation, check_violation}
use along.Store.Schema.{
  Db, Env, AccountRow, AccountStatus, pending, active, deleted, is_active, CredentialRow,
  PairMemberRow, AuthSessionRow,
}
use along.Store.Tx.{Tx, ◌>>=◌, ◌>>◌, pure, gets, modify, or_fail}

abbrev pub status_text : AccountStatus → String
status_text pending = "pending"
status_text active = "active"
status_text deleted = "deleted"

abbrev pub is_pending : AccountStatus → Bool
is_pending pending = true
is_pending _ = false

-- The columns of `accounts` alone; the other fields are Go's zero values.
unfoldable pub account_of : AccountRow → Account
account_of a = record {
  id = a.id;
  display_name = a.display_name;
  recovery_handle = a.recovery_handle;
  webauthn_user_id = a.webauthn_user_handle;
  status = status_text a.status;
  created_at = a.created_at;
  pair_id = none;
  partner_name = "";
  credential_count = 0;
  installation_id = none;
}

-- The CHECK on display_name, the primary key, and the two UNIQUE columns.
unfoldable pub insert_account : AccountRow → Tx (Unit {0})
insert_account row db =
    if not (between 1 80 (char_length row.display_name))
    then err check_violation
    else if any
        (λ a.
          a.id == row.id
          || a.webauthn_user_handle == row.webauthn_user_handle
          || str_eq a.recovery_handle row.recovery_handle)
        db.accounts
    then err unique_violation
    else ok (tt, record db { accounts = db.accounts ++ row ∷ [] })

unfoldable pub create_pending_account : Env → ℕ → ℕ → String → String → Tx Account
create_pending_account env account handle display_name recovery_handle = do
  let row : AccountRow = record {
    id = account;
    webauthn_user_handle = handle;
    display_name = display_name;
    recovery_handle = recovery_handle;
    status = pending;
    created_at = env.clock;
  }
  insert_account row
  pure (account_of row)

abbrev is_of : ℕ → Option ℕ → Bool
is_of account none = false
is_of account (some a) = a == account

-- Whether the session of a refresh token is one of the account's.
unfoldable pub session_is_of : ℕ → List AuthSessionRow → ℕ → Bool
session_is_of account sessions id = any (λ s. s.id == id && s.account_id == account) sessions

-- ON DELETE CASCADE from a row of accounts.
unfoldable pub cascade_account : ℕ → Db → Db
unfolding session_is_of
cascade_account account db = record db {
  webauthn_credentials = delete (λ c. c.account_id == account) db.webauthn_credentials;
  auth_challenges = delete (λ c. is_of account c.account_id) db.auth_challenges;
  recovery_codes = delete (λ c. c.account_id == account) db.recovery_codes;
  device_installs = delete (λ d. d.account_id == account) db.device_installs;
  refresh_tokens =
      delete (λ r. session_is_of account db.auth_sessions r.auth_session_id) db.refresh_tokens;
  auth_sessions = delete (λ s. s.account_id == account) db.auth_sessions;
  pair_members = delete (λ m. m.account_id == account) db.pair_members;
  pair_invites = delete (λ i. i.created_by == account) db.pair_invites;
  idempotency_keys = delete (λ k. k.account_id == account) db.idempotency_keys;
  notification_jobs =
      delete
        (λ j.
          j.recipient_account_id == account
          || any (λ d. d.id == j.push_device_id && d.account_id == account) db.push_devices)
        db.notification_jobs;
  push_devices = delete (λ d. d.account_id == account) db.push_devices;
}

abbrev pub is_pending_account : ℕ → AccountRow → Bool
is_pending_account account a = a.id == account && is_pending a.status

-- An error from outside the database, such as a cancelled context, is not modelled.
unfoldable pub delete_pending_account : ℕ → Tx (Unit {0})
unfolding cascade_account
delete_pending_account account = modify λ db.
    if any (is_pending_account account) db.accounts
    then record (cascade_account account db) {
      accounts = delete (is_pending_account account) db.accounts;
    }
    else db

-- WebAuthnAccount
pub record WebauthnAccount : Type 0 where
  pub account : Account
  pub credentials : List String

unfoldable pub is_open_account : AccountStatus → Bool
is_open_account pending = true
is_open_account active = true
is_open_account deleted = false

-- The aggregate over the LEFT JOIN.
unfoldable pub credentials_of : ℕ → List CredentialRow → List String
credentials_of account rows =
    map (λ c. c.credential)
      (sort_by (λ a b. leb a.created_at b.created_at)
        (select (λ c. c.account_id == account && is_none c.revoked_at) rows))

unfoldable pub get_webauthn_account : (AccountRow → Bool) → Tx WebauthnAccount
unfolding is_open_account credentials_of
get_webauthn_account predicate = do
  found ← gets λ db. find (λ a. predicate a && is_open_account a.status) db.accounts
  a ← or_fail not_found found
  credentials ← gets λ db. credentials_of a.id db.webauthn_credentials
  pure (record { account = account_of a; credentials = credentials })

unfoldable pub get_webauthn_account_by_id : ℕ → Tx WebauthnAccount
get_webauthn_account_by_id account = get_webauthn_account (λ a. a.id == account)

unfoldable pub get_webauthn_account_by_handle : ℕ → Tx WebauthnAccount
get_webauthn_account_by_handle handle = get_webauthn_account (λ a. a.webauthn_user_handle == handle)

-- LEFT JOIN pair_members pm ON pm.account_id = a.id
unfoldable pub pair_of : ℕ → List PairMemberRow → Option ℕ
pair_of account members = elim (find (λ m. m.account_id == account) members) [
  | none ↦ none
  | some m ↦ some m.pair_id
]

-- The name of the account of another member, or the empty text.
unfoldable pub partner_name_in : ℕ → Option ℕ → Db → String
partner_name_in account none db = ""
partner_name_in account (some pair) db =
    elim (find (λ m. m.pair_id == pair && not (m.account_id == account)) db.pair_members) [
      | none ↦ ""
      | some m ↦ elim (find (λ a. a.id == m.account_id) db.accounts) [
        | none ↦ ""
        | some a ↦ a.display_name
      ]
    ]

unfoldable pub account_with_pair : Db → AccountRow → Account
account_with_pair db a = record (account_of a) {
  pair_id = pair_of a.id db.pair_members;
  partner_name = partner_name_in a.id (pair_of a.id db.pair_members) db;
  credential_count =
      count (λ c. c.account_id == a.id && is_none c.revoked_at) db.webauthn_credentials;
}

unfoldable pub get_account : ℕ → Tx Account
unfolding account_with_pair
get_account account = do
  found ← gets λ db. find (λ a. a.id == account && is_active a.status) db.accounts
  a ← or_fail not_found found
  gets λ db. account_with_pair db a

-- The CHECK on label, and the primary key.
unfoldable pub insert_credential : CredentialRow → Tx (Unit {0})
insert_credential row db =
    if not (between 1 80 (char_length row.label))
    then err check_violation
    else if any (λ c. bytes_eq c.credential_id row.credential_id) db.webauthn_credentials
    then err unique_violation
    else ok (tt, record db { webauthn_credentials = db.webauthn_credentials ++ row ∷ [] })

unfoldable pub new_credential : Env → ℕ → List ℕ → String → String → CredentialRow
new_credential env account credential_id credential label = record {
  credential_id = credential_id;
  account_id = account;
  credential = credential;
  label = label;
  created_at = env.clock;
  last_used_at = none;
  revoked_at = none;
}

unfoldable pub add_credential : Env → ℕ → List ℕ → String → String → Tx (Unit {0})
add_credential env account credential_id credential label =
    insert_credential (new_credential env account credential_id credential label)
