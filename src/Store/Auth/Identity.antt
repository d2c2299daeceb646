-- ===== src/Store/Auth/Identity.antt =====
-- ValidateAuthSession, ListCredentials, ListSessions and ListInstallations of
-- server/internal/store/auth.go.
use along.Prelude.{
  ℕ, String, Bool, true, ◌&&◌, Option, none, some, List, [], ◌∷◌, map, ◌==◌, ltb, leb, find, select,
  sort_by, is_none, bytes_eq,
}
use along.Domain.Models.{AuthIdentity}
use along.Store.Result.{not_found}
use along.Store.Schema.{Db, Env, is_active, CredentialRow, InstallRow, AuthSessionRow}
use along.Store.Tx.{Tx, ◌>>=◌, pure, gets, or_fail}
use along.Store.Auth.Accounts.{pair_of}
use along.Store.Auth.Logins.{is_install}

-- s.credential_id IS NULL OR c.revoked_at IS NULL, where `c` is joined by LEFT JOIN.
unfoldable pub credential_ok : List CredentialRow → Option (List ℕ) → Bool
credential_ok rows none = true
credential_ok rows (some id) = elim (find (λ c. bytes_eq c.credential_id id) rows) [
  | none ↦ true
  | some c ↦ is_none c.revoked_at
]

-- The conditions on the row of auth_sessions.
unfoldable pub is_claimed_session : Env → AuthIdentity → AuthSessionRow → Bool
is_claimed_session env claimed s =
    s.id == claimed.session_id
    && s.account_id == claimed.account_id
    && s.device_install_id == claimed.installation_id
    && is_none s.revoked_at
    && ltb env.clock s.expires_at

abbrev pub is_live_install : AuthSessionRow → InstallRow → Bool
is_live_install s d = is_install s.device_install_id s.account_id d && is_none d.revoked_at

-- The row of auth_sessions that the SELECT takes.
unfoldable pub claimed_row : Env → AuthIdentity → Db → Option AuthSessionRow
unfolding credential_ok
claimed_row env claimed db =
    find
      (λ s.
        is_claimed_session env claimed s && credential_ok db.webauthn_credentials s.credential_id)
      db.auth_sessions

unfoldable pub validate_auth_session : Env → AuthIdentity → Tx AuthIdentity
validate_auth_session env claimed = do
  session_row ← gets (claimed_row env claimed)
  session ← or_fail not_found session_row
  install_row ← gets λ db. find (is_live_install session) db.device_installs
  install ← or_fail not_found install_row
  account_row ← gets λ db. find (λ a. a.id == session.account_id && is_active a.status) db.accounts
  account ← or_fail not_found account_row
  pair ← gets λ db. pair_of account.id db.pair_members
  pure (record claimed { display_name = account.display_name; pair_id = pair })

-- CredentialRecord
pub record CredentialRecord : Type 0 where
  pub id : List ℕ
  pub label : String
  pub created_at : ℕ
  pub last_used_at : Option ℕ

unfoldable pub list_credentials : ℕ → Db → List CredentialRecord
list_credentials account db =
    map
      (λ c. record {
        id = c.credential_id;
        label = c.label;
        created_at = c.created_at;
        last_used_at = c.last_used_at;
      })
      (sort_by (λ a b. leb b.created_at a.created_at)
        (select (λ c. c.account_id == account && is_none c.revoked_at) db.webauthn_credentials))

-- AuthSessionRecord
pub record AuthSessionRecord : Type 0 where
  pub id : ℕ
  pub installation_id : ℕ
  pub installation_name : String
  pub platform : String
  pub created_at : ℕ
  pub last_seen_at : ℕ
  pub current : Bool

-- JOIN device_installs d ON d.id = s.device_install_id AND d.account_id = s.account_id
unfoldable pub session_records : ℕ → List InstallRow → List AuthSessionRow → List AuthSessionRecord
session_records current installs [] = []
session_records current installs (s ∷ ss) =
    let rest = session_records current installs ss in
    elim (find (is_install s.device_install_id s.account_id) installs) [
      | none ↦ rest
      | some d ↦
          record {
            id = s.id;
            installation_id = s.device_install_id;
            installation_name = d.name;
            platform = d.platform;
            created_at = s.created_at;
            last_seen_at = s.last_seen_at;
            current = s.id == current;
          }
          ∷ rest
    ]

unfoldable pub is_live_session : Env → ℕ → AuthSessionRow → Bool
is_live_session env account s =
    s.account_id == account && is_none s.revoked_at && ltb env.clock s.expires_at

unfoldable pub list_sessions : Env → ℕ → ℕ → Db → List AuthSessionRecord
unfolding session_records
list_sessions env account current db = session_records current db.device_installs (
    sort_by (λ a b. leb b.last_seen_at a.last_seen_at)
      (select (is_live_session env account) db.auth_sessions))

-- InstallationRecord
pub record InstallationRecord : Type 0 where
  pub id : ℕ
  pub name : String
  pub platform : String
  pub created_at : ℕ
  pub last_seen_at : ℕ

unfoldable pub list_installations : ℕ → Db → List InstallationRecord
list_installations account db =
    map
      (λ d. record {
        id = d.id;
        name = d.name;
        platform = d.platform;
        created_at = d.created_at;
        last_seen_at = d.last_seen_at;
      })
      (sort_by (λ a b. leb b.last_seen_at a.last_seen_at)
        (select (λ d. d.account_id == account && is_none d.revoked_at) db.device_installs))
