-- ===== src/Store/Auth/Revoke.antt =====
-- RevokeCredential, RevokeSession and RevokeInstallation of server/internal/store/auth.go.
-- RevokeSession is one statement and no transaction: where it reports ErrNotFound it has changed no
-- row, since `id` is the primary key.
use along.Prelude.{
  ℕ, String, Bool, false, ◌&&◌, Option, none, some, List, ◌==◌, update, count, is_none, coalesce,
  bytes_eq,
}
use along.Store.Result.{not_found}
use along.Store.Schema.{Env, CredentialRow, InstallRow, AuthSessionRow}
use along.Store.Tx.{Tx, ◌>>=◌, ◌>>◌, gets, guard, modify}
use along.Store.Push.{is_install_of, revoke_device}
use along.Store.Auth.Logins.{is_install, is_passkey}

unfoldable pub revoke_credential_row : Env → CredentialRow → CredentialRow
revoke_credential_row env c = record c { revoked_at = some env.clock }

-- revoked_at = COALESCE(revoked_at, clock_timestamp()), revoke_reason = reason
unfoldable pub revoke_session_row : Env → String → AuthSessionRow → AuthSessionRow
revoke_session_row env reason s = record s {
  revoked_at = some (coalesce s.revoked_at env.clock);
  revoke_reason = some reason;
}

abbrev pub has_credential : List ℕ → Option (List ℕ) → Bool
has_credential id none = false
has_credential id (some c) = bytes_eq c id

unfoldable pub revoke_credential : Env → ℕ → List ℕ → Tx (Unit {0})
unfolding revoke_credential_row revoke_session_row
revoke_credential env account credential_id = do
  known ← gets λ db. count (is_passkey account credential_id) db.webauthn_credentials
  guard (known == 1) not_found
  modify λ db. record db {
    webauthn_credentials =
        update (is_passkey account credential_id) (revoke_credential_row env)
          db.webauthn_credentials;
  }
  modify λ db. record db {
    auth_sessions =
        update (λ s. s.account_id == account && has_credential credential_id s.credential_id)
          (revoke_session_row env "passkey_revoked") db.auth_sessions;
  }

-- id = $1 AND account_id = $2 AND revoked_at IS NULL
unfoldable pub is_unrevoked_session : ℕ → ℕ → AuthSessionRow → Bool
is_unrevoked_session account session s =
    s.id == session && s.account_id == account && is_none s.revoked_at

unfoldable pub end_session_row : Env → String → AuthSessionRow → AuthSessionRow
end_session_row env reason s = record s { revoked_at = some env.clock; revoke_reason = some reason }

unfoldable pub revoke_session : Env → ℕ → ℕ → String → Tx (Unit {0})
unfolding end_session_row
revoke_session env account session reason = do
  known ← gets λ db. count (is_unrevoked_session account session) db.auth_sessions
  guard (known == 1) not_found
  modify λ db. record db {
    auth_sessions =
        update (is_unrevoked_session account session) (end_session_row env reason) db.auth_sessions;
  }

unfoldable pub is_unrevoked_install : ℕ → ℕ → InstallRow → Bool
is_unrevoked_install account installation d =
    is_install installation account d && is_none d.revoked_at

unfoldable pub revoke_install_row : Env → InstallRow → InstallRow
revoke_install_row env d = record d { revoked_at = some env.clock }

unfoldable pub revoke_installation : Env → ℕ → ℕ → Tx (Unit {0})
unfolding revoke_install_row revoke_session_row revoke_device
revoke_installation env account installation = do
  known ← gets λ db. count (is_unrevoked_install account installation) db.device_installs
  guard (known == 1) not_found
  modify λ db. record db {
    device_installs =
        update (is_unrevoked_install account installation) (revoke_install_row env)
          db.device_installs;
  }
  modify λ db. record db {
    auth_sessions =
        update (λ s. s.account_id == account && s.device_install_id == installation)
          (revoke_session_row env "installation_revoked") db.auth_sessions;
  }
  modify λ db. record db {
    push_devices = update (is_install_of account installation) (revoke_device env) db.push_devices;
  }
