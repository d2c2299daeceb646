-- ===== src/Store/Auth/Calls.antt =====
-- The calls of server/internal/store/auth.go that change the database, one after another, each in a
-- transaction of its own: `AuthCall` has all of them but DeletePendingAccount, which removes an
-- account that was not activated with every row that refers to it, and `StoreCall` that one too.
use along.Prelude.{ℕ, String, Option, List, [], ◌∷◌}
use along.Domain.Models.{DeviceInfo}
use along.Store.Schema.{Db, Env}
use along.Store.Tx.{Tx, ◌>>=◌, pure, after}
use along.Store.Auth.Accounts.{create_pending_account, delete_pending_account, add_credential}
use along.Store.Auth.Challenges.{create_challenge, consume_challenge}
use along.Store.Auth.Logins.{Grant, activate_account, create_login_session}
use along.Store.Auth.Recovery.{use_recovery_code, replace_recovery_codes}
use along.Store.Auth.Refresh.{rotate_refresh}
use along.Store.Auth.Revoke.{revoke_credential, revoke_session, revoke_installation}

pub data AuthCall : Type 0 where
  open_account : (account handle : ℕ) (display_name recovery_handle : String) → AuthCall
  add_passkey : (account : ℕ) (credential_id : List ℕ) (credential label : String) → AuthCall
  open_challenge :
      (id : ℕ) (account : Option ℕ) (purpose session_data : String) (expires_at : ℕ) → AuthCall
  spend_challenge : (id : ℕ) (purpose : String) → AuthCall
  activate :
      (account : ℕ) (credential_id : List ℕ) (credential label : String) (hashes : List String)
      (device : DeviceInfo) (grant : Grant)
      → AuthCall
  login :
      (account : ℕ) (credential_id : List ℕ) (credential : String) (device : DeviceInfo)
      (grant : Grant)
      → AuthCall
  recover : (account position : ℕ) (device : DeviceInfo) (grant : Grant) → AuthCall
  rotate : (old_id old_hash new_id new_hash expires_at : ℕ) → AuthCall
  replace_codes : (account : ℕ) (hashes : List String) → AuthCall
  end_credential : (account : ℕ) (credential_id : List ℕ) → AuthCall
  end_session : (account session : ℕ) (reason : String) → AuthCall
  end_installation : (account installation : ℕ) → AuthCall

module _ (env : Env) where
  unfoldable pub perform : AuthCall → Tx (Unit {0})
  perform (open_account account handle display_name recovery_handle) = do
    opened ← create_pending_account env account handle display_name recovery_handle
    pure tt
  perform (add_passkey account id credential label) = add_credential env account id credential label
  perform (open_challenge id account purpose session_data expires_at) =
      create_challenge id account purpose session_data expires_at
  perform (spend_challenge id purpose) = do challenge ← consume_challenge env id purpose; pure tt
  perform (activate account id credential label hashes device g) = do
    identity ← activate_account env account id credential label hashes device g
    pure tt
  perform (login account id credential device g) = do
    identity ← create_login_session env account id credential device g
    pure tt
  perform (recover account position device g) = do
    identity ← use_recovery_code env account position device g
    pure tt
  perform (rotate old_id old_hash new_id new_hash expires) = do
    rotation ← rotate_refresh env old_id old_hash new_id new_hash expires
    pure tt
  perform (replace_codes account hashes) = replace_recovery_codes account hashes
  perform (end_credential account id) = revoke_credential env account id
  perform (end_session account session reason) = revoke_session env account session reason
  perform (end_installation account installation) = revoke_installation env account installation

unfoldable pub run_auth : List (Env × AuthCall) → Db → Db
unfolding perform
run_auth [] db = db
run_auth ((env, call) ∷ rest) db = run_auth rest (after (perform env call) db)

pub data StoreCall : Type 0 where
  auth : AuthCall → StoreCall
  delete_pending : (account : ℕ) → StoreCall

unfoldable pub run_store : List (Env × StoreCall) → Db → Db
unfolding perform
run_store [] db = db
run_store ((env, auth call) ∷ rest) db = run_store rest (after (perform env call) db)
run_store ((env, delete_pending account) ∷ rest) db =
    run_store rest (after (delete_pending_account account) db)
