-- ===== src/Store/Auth/Recovery.antt =====
-- RecoveryCodes, UseRecoveryCode and ReplaceRecoveryCodes of server/internal/store/auth.go.
pub mod Laws
use along.Prelude.{
  ℕ, String, Bool, ◌&&◌, Option, none, some, List, [], ◌∷◌, map, ◌==◌, leb, find, select, update,
  delete, count, sort_by, is_none, str_eq,
}
use along.Domain.Models.{Account, AuthIdentity, DeviceInfo}
use along.Store.Result.{not_found, conflict}
use along.Store.Schema.{Db, Env, is_active, RecoveryCodeRow}
use along.Store.Tx.{Tx, ◌>>=◌, ◌>>◌, pure, gets, guard, modify, or_fail}
use along.Store.Auth.Accounts.{account_of}
use along.Store.Auth.Logins.{Grant, create_session, identity_of, insert_codes}

-- RecoveryCodeRecord
pub record RecoveryCode : Type 0 where
  pub position : ℕ
  pub hash : String

abbrev pub is_unused_of : ℕ → RecoveryCodeRow → Bool
is_unused_of account c = c.account_id == account && is_none c.used_at

-- The second SELECT.
unfoldable pub unused_codes : ℕ → Db → List RecoveryCode
unused_codes account db =
    map (λ c. record { position = c.position; hash = c.code_hash })
      (sort_by (λ a b. leb a.position b.position) (select (is_unused_of account) db.recovery_codes))

unfoldable pub recovery_codes : String → Tx (Account × List RecoveryCode)
unfolding unused_codes
recovery_codes recovery_handle = do
  found ←
      gets
        λ db. find (λ a. str_eq a.recovery_handle recovery_handle && is_active a.status) db.accounts
  a ← or_fail not_found found
  codes ← gets (unused_codes a.id)
  pure (account_of a, codes)

-- account_id = $1 AND position = $2 AND used_at IS NULL
unfoldable pub is_unused_code : ℕ → ℕ → RecoveryCodeRow → Bool
is_unused_code account position c =
    c.account_id == account && c.position == position && is_none c.used_at

unfoldable pub use_row : Env → RecoveryCodeRow → RecoveryCodeRow
use_row env c = record c { used_at = some env.clock }

unfoldable pub use_recovery_code : Env → ℕ → ℕ → DeviceInfo → Grant → Tx AuthIdentity
unfolding use_row
use_recovery_code env account position device g = do
  unused ← gets λ db. count (is_unused_code account position) db.recovery_codes
  guard (unused == 1) conflict
  modify λ db. record db {
    recovery_codes = update (is_unused_code account position) (use_row env) db.recovery_codes;
  }
  create_session env account [] device g
  pure (identity_of account g.auth_session_id device.id)

unfoldable pub replace_recovery_codes : ℕ → List String → Tx (Unit {0})
replace_recovery_codes account hashes = do
  modify
      λ db. record db { recovery_codes = delete (λ c. c.account_id == account) db.recovery_codes }
  insert_codes account 0 hashes
