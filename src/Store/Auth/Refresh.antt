-- ===== src/Store/Auth/Refresh.antt =====
-- RotateRefresh of server/internal/store/auth.go. A reuse is an error to the caller, and yet it is
-- committed: it is a value here, `reused`, so that its changes stay.
pub mod Outcome
pub mod Reuse
pub mod Family
use along.Prelude.{
  ℕ, Bool, ◌&&◌, Option, none, some, ◌==◌, leb, find, update, count, is_none, is_some, coalesce,
  if◌then◌else◌,
}
use along.Domain.Models.{AuthIdentity}
use along.Store.Result.{invalid_refresh}
use along.Store.Schema.{Db, Env, is_active, InstallRow, AuthSessionRow, RefreshRow}
use along.Store.Tx.{Tx, ◌>>=◌, ◌>>◌, pure, gets, guard, modify, or_fail}
use along.Store.Auth.Logins.{is_install, insert_refresh, new_refresh, identity_of}

pub data Rotation : Type 0 where
  rotated : AuthIdentity → Rotation
  reused : Rotation

-- The row of the SELECT, which joins a token, its session and the session's installation.
pub record Presented : Type 0 where
  pub token : RefreshRow
  pub session : AuthSessionRow
  pub install : InstallRow

unfoldable pub present_refresh : ℕ → Tx Presented
present_refresh id = do
  token_row ← gets λ db. find (λ r. r.id == id) db.refresh_tokens
  token ← or_fail invalid_refresh token_row
  session_row ← gets λ db. find (λ s. s.id == token.auth_session_id) db.auth_sessions
  session ← or_fail invalid_refresh session_row
  install_row ←
      gets λ db. find (is_install session.device_install_id session.account_id) db.device_installs
  install ← or_fail invalid_refresh install_row
  account_row ← gets λ db. find (λ a. a.id == session.account_id && is_active a.status) db.accounts
  account ← or_fail invalid_refresh account_row
  pure (record { token = token; session = session; install = install })

-- revoked_at = COALESCE(revoked_at, $2)
unfoldable pub revoke_token : ℕ → RefreshRow → RefreshRow
revoke_token now r = record r { revoked_at = some (coalesce r.revoked_at now) }

unfoldable pub revoke_reused : ℕ → AuthSessionRow → AuthSessionRow
revoke_reused now s = record s {
  revoked_at = some (coalesce s.revoked_at now);
  revoke_reason = some "refresh_reuse";
}

-- The branch of a token that is already consumed.
unfoldable pub revoke_family : Env → Presented → Tx Rotation
unfolding revoke_token revoke_reused
revoke_family env p = do
  modify λ db. record db {
    refresh_tokens =
        update (λ r. r.family_id == p.token.family_id) (revoke_token env.now) db.refresh_tokens;
  }
  modify λ db. record db {
    auth_sessions = update (λ s. s.id == p.session.id) (revoke_reused env.now) db.auth_sessions;
  }
  pure reused

-- The negation of the last test before the rotation.
unfoldable pub is_good : Env → Presented → Bool
is_good env p =
    is_none p.token.revoked_at
    && is_none p.session.revoked_at
    && is_none p.install.revoked_at
    && leb env.now p.token.expires_at
    && leb env.now p.session.expires_at

-- id = $1 AND consumed_at IS NULL
unfoldable pub is_unconsumed : ℕ → RefreshRow → Bool
is_unconsumed id r = r.id == id && is_none r.consumed_at

unfoldable pub consume_token : ℕ → ℕ → RefreshRow → RefreshRow
consume_token now replacement r = record r {
  consumed_at = some now;
  replacement_id = some replacement;
}

unfoldable pub seen_session : ℕ → AuthSessionRow → AuthSessionRow
seen_session now s = record s { last_seen_at = now }

unfoldable pub seen_install : ℕ → InstallRow → InstallRow
seen_install now d = record d { last_seen_at = now }

-- The end of a rotation: last_seen_at of the session and of the installation.
unfoldable pub touch : Env → Presented → Tx Rotation
unfolding seen_session seen_install
touch env p = do
  modify λ db. record db {
    auth_sessions = update (λ s. s.id == p.session.id) (seen_session env.now) db.auth_sessions;
  }
  modify λ db. record db {
    device_installs =
        update (is_install p.session.device_install_id p.session.account_id) (seen_install env.now)
          db.device_installs;
  }
  pure (rotated (identity_of p.session.account_id p.session.id p.session.device_install_id))

-- The branch of a token that was not consumed.
unfoldable pub renew : Env → ℕ → ℕ → ℕ → ℕ → Presented → Tx Rotation
unfolding is_good consume_token touch
renew env old_id new_id new_hash new_expires_at p = do
  guard (is_good env p) invalid_refresh
  consumed ← gets λ db. count (is_unconsumed old_id) db.refresh_tokens
  modify λ db. record db {
    refresh_tokens = update (is_unconsumed old_id) (consume_token env.now new_id) db.refresh_tokens;
  }
  guard (consumed == 1) invalid_refresh
  insert_refresh
      (new_refresh new_id p.token.family_id p.session.id (some old_id) new_hash new_expires_at)
  touch env p

unfoldable pub rotate_refresh : Env → ℕ → ℕ → ℕ → ℕ → ℕ → Tx Rotation
rotate_refresh env old_id old_hash new_id new_hash new_expires_at = do
  p ← present_refresh old_id
  guard (p.token.token_hash == old_hash) invalid_refresh
  if is_some p.token.consumed_at
      then revoke_family env p
      else renew env old_id new_id new_hash new_expires_at p
