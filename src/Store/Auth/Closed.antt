-- ===== src/Store/Auth/Closed.antt =====
-- A predicate on the accounts, the auth sessions and the refresh tokens that each statement of the calls keeps is
-- kept by every call.
use along.Prelude.{
  ℕ, suc, ◌≡◌, refl, Bool, false, Option, none, List, [], ◌∷◌, update, arith, String, is_none,
}
use along.Domain.Models.{DeviceInfo}
use along.Store.Result.{ok}
use along.Store.Schema.{Db, Env, AccountRow, AuthSessionRow, CredentialRow}
use along.Store.Tx.{
  Tx, ◌>>=◌, pure, Keeps, Keeps-bind, Keeps-pure, Keeps-one, Keeps-gets, Keeps-or_fail, modify,
}
use along.Store.Auth.Accounts.{
  is_pending, insert_account, create_pending_account, insert_credential, add_credential,
}
use along.Store.Auth.Challenges.{create_challenge, consume_challenge}
use along.Store.Auth.Logins.{
  Grant, upsert_install, insert_auth_session, insert_refresh, new_refresh, create_session,
  insert_code, insert_codes, activate_row, activate_account, create_login_session,
}
use along.Store.Auth.Recovery.{use_recovery_code, replace_recovery_codes}
use along.Store.Auth.Refresh.{rotate_refresh}
use along.Store.Auth.Revoke.{
  revoke_credential, revoke_session, revoke_installation, revoke_session_row, end_session_row,
}
use along.Store.Auth.Calls.{
  AuthCall, open_account, add_passkey, open_challenge, spend_challenge, activate, login, recover,
  rotate, replace_codes, end_credential, end_session, end_installation, perform,
}

-- A statement that changes none of the three tables.
abbrev pub Quiet : Tx (Unit {0}) → Type 0
Quiet m =
    (db : Db) (a : Unit {0}) (db' : Db)
    → m db ≡ ok (a, db')
    → (db'.refresh_tokens ≡ db.refresh_tokens)
      × (db'.auth_sessions ≡ db.auth_sessions)
      × (db'.accounts ≡ db.accounts)

-- An assignment to rows of auth_sessions that keeps the keys and takes no revocation back.
pub record IsRevoking (f : AuthSessionRow → AuthSessionRow) : Type 0 where
  pub id : (s : AuthSessionRow) → (f s).id ≡ s.id
  pub account : (s : AuthSessionRow) → (f s).account_id ≡ s.account_id
  pub install : (s : AuthSessionRow) → (f s).device_install_id ≡ s.device_install_id
  pub stays : (s : AuthSessionRow) → is_none s.revoked_at ≡ false → is_none (f s).revoked_at ≡ false

-- An assignment to rows of accounts that keeps the keys and leaves no account pending.
pub record IsActivating (f : AccountRow → AccountRow) : Type 0 where
  pub id : (a : AccountRow) → (f a).id ≡ a.id
  pub active : (a : AccountRow) → is_pending (f a).status ≡ false

pub record IsClosed (P : Db → Type 0) : Type 0 where
  pub quiet : (m : Tx (Unit {0})) → Quiet m → Keeps P m
  pub account : (row : AccountRow) → Keeps P (insert_account row)
  pub activating :
      (q : AccountRow → Bool) (f : AccountRow → AccountRow)
      → IsActivating f
      → Keeps P (modify λ db. record db { accounts = update q f db.accounts })
  pub session : (row : AuthSessionRow) → Keeps P (insert_auth_session row)
  pub token :
      (id session hash expires : ℕ)
      → Keeps P (insert_refresh (new_refresh id id session none hash expires))
  pub rotation :
      (env : Env) (old_id old_hash new_id new_hash expires : ℕ)
      → Keeps P (rotate_refresh env old_id old_hash new_id new_hash expires)
  pub revoking :
      (q : AuthSessionRow → Bool) (f : AuthSessionRow → AuthSessionRow)
      → IsRevoking f
      → Keeps P (modify λ db. record db { auth_sessions = update q f db.auth_sessions })

upsert_install-Quiet :
    (env : Env) (account : ℕ) (device : DeviceInfo) → Quiet (upsert_install env account device)
unfolding upsert_install
upsert_install-Quiet env account device db a db' e = (ground arith, ground arith, ground arith)

insert_credential-Quiet : (row : CredentialRow) → Quiet (insert_credential row)
unfolding insert_credential
insert_credential-Quiet row db a db' e = (ground arith, ground arith, ground arith)

activate_row-IsActivating : IsActivating activate_row
unfolding activate_row
activate_row-IsActivating = record { id = λ a. refl; active = λ a. refl }

create_challenge-Quiet :
    (id : ℕ) (account : Option ℕ) (purpose session_data : String) (expires_at : ℕ)
    → Quiet (create_challenge id account purpose session_data expires_at)
unfolding create_challenge
create_challenge-Quiet id account purpose session_data expires_at db a db' e =
    (ground arith, ground arith, ground arith)

insert_code-Quiet :
    (account position : ℕ) (hash : String) → Quiet (insert_code account position hash)
unfolding insert_code
insert_code-Quiet account position hash db a db' e = (ground arith, ground arith, ground arith)

modify-Quiet :
    (f : Db → Db)
    → ((db : Db)
        → ((f db).refresh_tokens ≡ db.refresh_tokens)
          × ((f db).auth_sessions ≡ db.auth_sessions)
          × ((f db).accounts ≡ db.accounts))
    → Quiet (modify f)
modify-Quiet f same db a db' e = ground (arith, same db)

revoke_session_row-IsRevoking :
    (env : Env) (reason : String) → IsRevoking (revoke_session_row env reason)
unfolding revoke_session_row
revoke_session_row-IsRevoking env reason = record {
  id = λ s. refl;
  account = λ s. refl;
  install = λ s. refl;
  stays = λ s h. refl;
}

end_session_row-IsRevoking : (env : Env) (reason : String) → IsRevoking (end_session_row env reason)
unfolding end_session_row
end_session_row-IsRevoking env reason = record {
  id = λ s. refl;
  account = λ s. refl;
  install = λ s. refl;
  stays = λ s h. refl;
}

module _ {P : Db → Type 0} (closed : IsClosed P) (env : Env) where
  assign :
      (f : Db → Db)
      → ((db : Db)
          → ((f db).refresh_tokens ≡ db.refresh_tokens)
            × ((f db).auth_sessions ≡ db.auth_sessions)
            × ((f db).accounts ≡ db.accounts))
      → Keeps P (modify f)
  assign f same = closed.quiet (modify f) (modify-Quiet f same)

  insert_codes-Keeps :
      (account position : ℕ) (hashes : List String) → Keeps P (insert_codes account position hashes)
  unfolding insert_codes
  insert_codes-Keeps account position [] = Keeps-pure tt
  insert_codes-Keeps account position (hash ∷ hashes) =
      Keeps-bind _ _ (closed.quiet _ (insert_code-Quiet account position hash))
        λ _. insert_codes-Keeps account (suc position) hashes

  create_session-Keeps :
      (account : ℕ) (credential_id : List ℕ) (device : DeviceInfo) (g : Grant)
      → Keeps P (create_session env account credential_id device g)
  unfolding create_session
  create_session-Keeps account credential_id device g =
      Keeps-bind _ _ (closed.quiet _ (upsert_install-Quiet env account device)) λ _.
        Keeps-bind _ _ (closed.session _)
          λ _. closed.token g.refresh_id g.auth_session_id g.refresh_hash g.refresh_expires_at

  ignore : {A : Type 0} (m : Tx A) → Keeps P m → Keeps P (m >>= λ _. pure tt)
  ignore m keeps = Keeps-bind m _ keeps λ _. Keeps-pure tt

  activate_account-Keeps :
      (account : ℕ) (id : List ℕ) (credential label : String) (hashes : List String)
      (device : DeviceInfo) (g : Grant)
      → Keeps P (activate_account env account id credential label hashes device g)
  unfolding activate_account
  activate_account-Keeps account id credential label hashes device g = Keeps-one _ _ _ (
      Keeps-bind _ _ (closed.activating _ _ activate_row-IsActivating) λ _.
        Keeps-bind _ _ (closed.quiet _ (insert_credential-Quiet _)) λ _.
          Keeps-bind _ _ (insert_codes-Keeps account 0 hashes)
            λ _. Keeps-bind _ _ (create_session-Keeps account id device g) λ _. Keeps-pure _)

  create_login_session-Keeps :
      (account : ℕ) (id : List ℕ) (credential : String) (device : DeviceInfo) (g : Grant)
      → Keeps P (create_login_session env account id credential device g)
  unfolding create_login_session
  create_login_session-Keeps account id credential device g = Keeps-one _ _ _ (
      Keeps-bind _ _ (assign _ (λ db. (refl, refl, refl)))
        λ _. Keeps-bind _ _ (create_session-Keeps account id device g) λ _. Keeps-pure _)

  use_recovery_code-Keeps :
      (account position : ℕ) (device : DeviceInfo) (g : Grant)
      → Keeps P (use_recovery_code env account position device g)
  unfolding use_recovery_code
  use_recovery_code-Keeps account position device g = Keeps-one _ _ _ (
      Keeps-bind _ _ (assign _ (λ db. (refl, refl, refl)))
        λ _. Keeps-bind _ _ (create_session-Keeps account [] device g) λ _. Keeps-pure _)

  create_pending_account-Keeps :
      (account handle : ℕ) (display_name recovery_handle : String)
      → Keeps P (create_pending_account env account handle display_name recovery_handle)
  unfolding create_pending_account
  create_pending_account-Keeps account handle display_name recovery_handle =
      Keeps-bind _ _ (closed.account _) λ _. Keeps-pure _

  consume_challenge-Keeps : (id : ℕ) (purpose : String) → Keeps P (consume_challenge env id purpose)
  unfolding consume_challenge
  consume_challenge-Keeps id purpose = Keeps-bind _ _ (Keeps-gets _) λ found.
      Keeps-bind _ _ (assign _ (λ db. (refl, refl, refl)))
        λ _. Keeps-bind _ _ (Keeps-or_fail _ found) λ c. Keeps-pure _

  pub perform-Keeps : (call : AuthCall) → Keeps P (perform env call)
  unfolding perform add_credential replace_recovery_codes revoke_credential revoke_session
      revoke_installation
  perform-Keeps (open_account account handle display_name recovery_handle) =
      ignore _ (create_pending_account-Keeps account handle display_name recovery_handle)
  perform-Keeps (add_passkey account id credential label) =
      closed.quiet _ (insert_credential-Quiet _)
  perform-Keeps (open_challenge id account purpose session_data expires_at) =
      closed.quiet _ (create_challenge-Quiet id account purpose session_data expires_at)
  perform-Keeps (spend_challenge id purpose) = ignore _ (consume_challenge-Keeps id purpose)
  perform-Keeps (activate account id credential label hashes device g) =
      ignore _ (activate_account-Keeps account id credential label hashes device g)
  perform-Keeps (login account id credential device g) =
      ignore _ (create_login_session-Keeps account id credential device g)
  perform-Keeps (recover account position device g) =
      ignore _ (use_recovery_code-Keeps account position device g)
  perform-Keeps (rotate old_id old_hash new_id new_hash expires) =
      ignore _ (closed.rotation env old_id old_hash new_id new_hash expires)
  perform-Keeps (replace_codes account hashes) =
      Keeps-bind _ _ (assign _ (λ db. (refl, refl, refl))) λ _. insert_codes-Keeps account 0 hashes
  perform-Keeps (end_credential account id) = Keeps-one _ _ _ (
      Keeps-bind _ _ (assign _ (λ db. (refl, refl, refl)))
        λ _. closed.revoking _ _ (revoke_session_row-IsRevoking env "passkey_revoked"))
  perform-Keeps (end_session account session reason) =
      Keeps-one _ _ _ (closed.revoking _ _ (end_session_row-IsRevoking env reason))
  perform-Keeps (end_installation account installation) = Keeps-one _ _ _ (
      Keeps-bind _ _ (assign _ (λ db. (refl, refl, refl))) λ _.
        Keeps-bind _ _
          (closed.revoking _ _ (revoke_session_row-IsRevoking env "installation_revoked"))
          λ _. assign _ (λ db. (refl, refl, refl)))
