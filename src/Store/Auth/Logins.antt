-- ===== src/Store/Auth/Logins.antt =====
-- ActivateAccount, CreateLoginSession and createSession of server/internal/store/auth.go.
use along.Prelude.{
  ℕ, suc, String, Bool, not, ◌&&◌, ◌||◌, Option, none, some, List, [], ◌∷◌, ◌++◌, ◌==◌, any, update,
  count, is_none, str_eq, bytes_eq, char_length, between, if◌then◌else◌,
}
use along.Domain.Models.{AuthIdentity, DeviceInfo}
use along.Store.Result.{ok, err, not_found, conflict, unique_violation, check_violation}
use along.Store.Schema.{
  Env, AccountRow, active, CredentialRow, InstallRow, AuthSessionRow, RefreshRow,
}
use along.Store.Tx.{Tx, ◌>>=◌, ◌>>◌, pure, gets, guard, modify}
use along.Store.Auth.Accounts.{is_pending_account, insert_credential, new_credential}

-- The arguments authSessionID, sessionExpiresAt, refreshID, refreshHash and refreshExpiresAt.
pub record Grant : Type 0 where
  pub auth_session_id : ℕ
  pub session_expires_at : ℕ
  pub refresh_id : ℕ
  pub refresh_hash : ℕ
  pub refresh_expires_at : ℕ

-- The key (id, account_id).
abbrev pub is_install : ℕ → ℕ → InstallRow → Bool
is_install id account d = d.id == id && d.account_id == account

-- The CHECKs on platform and name.
unfoldable pub is_device : DeviceInfo → Bool
is_device d =
    (str_eq d.platform "ios" || str_eq d.platform "android") && between 1 120 (char_length d.name)

-- ON CONFLICT (id, account_id) DO UPDATE
unfoldable pub seen_again : Env → DeviceInfo → InstallRow → InstallRow
seen_again env device d = record d {
  platform = device.platform;
  name = device.name;
  last_seen_at = env.clock;
  revoked_at = none;
}

unfoldable pub upsert_install : Env → ℕ → DeviceInfo → Tx (Unit {0})
unfolding seen_again
upsert_install env account device db =
    if not (is_device device)
    then err check_violation
    else if any (is_install device.id account) db.device_installs
    then ok (
      tt,
      record db {
        device_installs =
            update (is_install device.id account) (seen_again env device) db.device_installs;
      },
    )
    else ok (
      tt,
      record db {
        device_installs =
            db.device_installs
            ++ record {
              id = device.id;
              account_id = account;
              platform = device.platform;
              name = device.name;
              created_at = env.clock;
              last_seen_at = env.clock;
              revoked_at = none;
            }
              ∷ [];
      },
    )

unfoldable pub insert_auth_session : AuthSessionRow → Tx (Unit {0})
insert_auth_session row db =
    if any (λ s. s.id == row.id) db.auth_sessions
    then err unique_violation
    else ok (tt, record db { auth_sessions = db.auth_sessions ++ row ∷ [] })

unfoldable pub insert_refresh : RefreshRow → Tx (Unit {0})
insert_refresh row db =
    if any (λ r. r.id == row.id) db.refresh_tokens
    then err unique_violation
    else ok (tt, record db { refresh_tokens = db.refresh_tokens ++ row ∷ [] })

unfoldable pub nullable_bytes : List ℕ → Option (List ℕ)
nullable_bytes [] = none
nullable_bytes (b ∷ bs) = some (b ∷ bs)

unfoldable pub new_session : Env → ℕ → List ℕ → DeviceInfo → Grant → AuthSessionRow
unfolding nullable_bytes
new_session env account credential_id device g = record {
  id = g.auth_session_id;
  account_id = account;
  device_install_id = device.id;
  credential_id = nullable_bytes credential_id;
  created_at = env.clock;
  expires_at = g.session_expires_at;
  last_seen_at = env.clock;
  revoked_at = none;
  revoke_reason = none;
}

unfoldable pub new_refresh : ℕ → ℕ → ℕ → Option ℕ → ℕ → ℕ → RefreshRow
new_refresh id family session parent hash expires_at = record {
  id = id;
  family_id = family;
  auth_session_id = session;
  parent_id = parent;
  token_hash = hash;
  expires_at = expires_at;
  consumed_at = none;
  replacement_id = none;
  revoked_at = none;
}

-- Every caller passes the refresh token's id as its family, and no parent.
unfoldable pub create_session : Env → ℕ → List ℕ → DeviceInfo → Grant → Tx (Unit {0})
create_session env account credential_id device g = do
  upsert_install env account device
  insert_auth_session (new_session env account credential_id device g)
  insert_refresh (
      new_refresh g.refresh_id g.refresh_id g.auth_session_id none g.refresh_hash
        g.refresh_expires_at)

unfoldable pub identity_of : ℕ → ℕ → ℕ → AuthIdentity
identity_of account session installation = record {
  account_id = account;
  session_id = session;
  installation_id = installation;
  pair_id = none;
  display_name = "";
}

unfoldable pub activate_row : AccountRow → AccountRow
activate_row a = record a { status = active }

-- The primary key (account_id, position).
unfoldable pub insert_code : ℕ → ℕ → String → Tx (Unit {0})
insert_code account position hash db =
    if any (λ c. c.account_id == account && c.position == position) db.recovery_codes
    then err unique_violation
    else ok (
      tt,
      record db {
        recovery_codes =
            db.recovery_codes
            ++ record {
              account_id = account;
              position = position;
              code_hash = hash;
              used_at = none;
            }
              ∷ [];
      },
    )

-- for position, hash := range hashes
unfoldable pub insert_codes : ℕ → ℕ → List String → Tx (Unit {0})
insert_codes account position [] = pure tt
insert_codes account position (hash ∷ hashes) = do
  insert_code account position hash
  insert_codes account (suc position) hashes

unfoldable pub activate_account :
    Env → ℕ → List ℕ → String → String → List String → DeviceInfo → Grant → Tx AuthIdentity
unfolding activate_row
activate_account env account credential_id credential label hashes device g = do
  activated ← gets λ db. count (is_pending_account account) db.accounts
  guard (activated == 1) conflict
  modify λ db. record db { accounts = update (is_pending_account account) activate_row db.accounts }
  insert_credential (new_credential env account credential_id credential label)
  insert_codes account 0 hashes
  create_session env account credential_id device g
  pure (identity_of account g.auth_session_id device.id)

-- credential_id = $1 AND account_id = $2 AND revoked_at IS NULL
unfoldable pub is_passkey : ℕ → List ℕ → CredentialRow → Bool
is_passkey account credential_id c =
    bytes_eq c.credential_id credential_id && c.account_id == account && is_none c.revoked_at

unfoldable pub used_row : Env → String → CredentialRow → CredentialRow
used_row env credential c = record c { credential = credential; last_used_at = some env.clock }

unfoldable pub create_login_session :
    Env → ℕ → List ℕ → String → DeviceInfo → Grant → Tx AuthIdentity
unfolding used_row
create_login_session env account credential_id credential device g = do
  known ← gets λ db. count (is_passkey account credential_id) db.webauthn_credentials
  guard (known == 1) not_found
  modify λ db. record db {
    webauthn_credentials =
        update (is_passkey account credential_id) (used_row env credential) db.webauthn_credentials;
  }
  create_session env account credential_id device g
  pure (identity_of account g.auth_session_id device.id)
