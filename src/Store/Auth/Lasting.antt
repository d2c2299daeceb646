-- ===== src/Store/Auth/Lasting.antt =====
-- A sign-in that was ended stays ended, whatever calls of server/internal/store/auth.go follow.
use along.Prelude.{
  ℕ, ◌≡◌, ◌∙◌, true, false, List, [], ◌∷◌, ◌==◌, any, any-mono_true, delete, arith, All-delete,
  any-delete, any-delete_none, Bool-cases, inl, inr,
}
use along.Domain.Models.{AuthIdentity}
use along.Store.Result.{err, not_found}
use along.Store.Schema.{Db, Env, AccountRow, AuthSessionRow}
use along.Store.Tx.{Keeps, Keeps-modify, Keeps-after, after}
use along.Store.Auth.Accounts.{is_pending_account, delete_pending_account, cascade_account}
use along.Store.Auth.Identity.{validate_auth_session}
use along.Store.Auth.Calls.{
  end_credential, end_session, end_installation, perform, StoreCall, auth, delete_pending,
  run_store,
}
use along.Store.Auth.Closed.{perform-Keeps}
use along.Store.Auth.Ended.{has_id, Dead, Ended, Ended-refused}
use along.Store.Auth.Held.{is_row, is_account, Held, Held-IsClosed}
use along.Store.Auth.History.{Ended-IsClosed}
use along.Store.Auth.Revoked.{Ends, by_logout, by_installation, by_passkey, by_reuse, Ends-Ended}

module _ (c : AuthIdentity) where
  abbrev Shut : Db → Type 0
  Shut db = Held c db × Ended c db

  known_row : (rows : List AuthSessionRow) → any (is_row c) rows ≡ true → any (has_id c) rows ≡ true
  known_row rows = any-mono_true (is_row c) (has_id c) (λ s hit. ground arith) rows

  -- The cascade from another account.
  cascade_other-Shut :
      (account : ℕ) (db : Db)
      → (account == c.account_id) ≡ false
      → Shut db
      → Shut (record (cascade_account account db) {
        accounts = delete (is_pending_account account) db.accounts;
      })
  unfolding cascade_account
  cascade_other-Shut account db other (held, ended) =
      let row =
        any-delete (is_row c) (λ s. s.account_id == account) (λ s hit. ground arith)
          db.auth_sessions
        ∙ held.row in
      (
        record {
          row = row;
          known =
              any-delete (is_account c) (is_pending_account account) (λ a hit. ground arith)
                db.accounts
              ∙ held.known;
          settled =
              any-delete_none (is_pending_account c.account_id) (is_pending_account account)
                db.accounts held.settled;
        },
        record {
          known = known_row _ row;
          dead = All-delete (Dead c) (λ s. s.account_id == account) db.auth_sessions ended.dead;
        },
      )

  other_account :
      (account : ℕ) (rows : List AccountRow)
      → any (is_pending_account account) rows ≡ true
      → any (is_pending_account c.account_id) rows ≡ false
      → (account == c.account_id) ≡ false
  other_account account [] pending settled = cc
  other_account account (a ∷ rest) pending settled = ground (arith, other_account account rest)

  delete_pending_account-Keeps : (account : ℕ) → Keeps Shut (delete_pending_account account)
  unfolding delete_pending_account
  delete_pending_account-Keeps account = Keeps-modify _ λ db h.
      elim (Bool-cases (any (is_pending_account account) db.accounts)) [
        | inl pending ↦ rw pending (
            cascade_other-Shut account db (other_account account db.accounts pending h.0.settled) h)
        | inr none ↦ rw none h
      ]

  run_store-Shut : (calls : List (Env × StoreCall)) (db : Db) → Shut db → Shut (run_store calls db)
  unfolding run_store
  run_store-Shut [] db h = h
  run_store-Shut ((env, auth call) ∷ rest) db (held, ended) =
      run_store-Shut rest (after (perform env call) db) (
        Keeps-after (perform env call) (perform-Keeps (Held-IsClosed c) env call) db held,
        Keeps-after (perform env call) (perform-Keeps (Ended-IsClosed c) env call) db ended,
      )
  run_store-Shut ((env, delete_pending account) ∷ rest) db h =
      run_store-Shut rest (after (delete_pending_account account) db)
        (Keeps-after (delete_pending_account account) (delete_pending_account-Keeps account) db h)

Ends-Held :
    (env : Env) (c : AuthIdentity) (db db' : Db) → Held c db → Ends env c db db' → Held c db'
unfolding perform
Ends-Held env c db db' held (by_logout reason e) =
    (perform-Keeps (Held-IsClosed c) env (end_session c.account_id c.session_id reason)).run db held
      tt db' e
Ends-Held env c db db' held (by_installation e) =
    (perform-Keeps (Held-IsClosed c) env (end_installation c.account_id c.installation_id)).run db
      held tt db' e
Ends-Held env c db db' held (by_passkey id opened_by e) =
    (perform-Keeps (Held-IsClosed c) env (end_credential c.account_id id)).run db held tt db' e
Ends-Held env c db db' held (by_reuse id hash new_id new_hash expires t found same e) =
    ((Held-IsClosed c).rotation env id hash new_id new_hash expires).run db held _ db' e

-- Once a stored sign-in, of an account that is stored and not pending, is ended by logging out, by
-- revoking its installation or its passkey, or by the reuse of one of its refresh tokens, its access
-- tokens are refused at any later time, whatever calls of the authentication store that change the
-- database follow, DeletePendingAccount with its cascade included.
pub ended_session-stays_refused :
    (env later : Env) (c : AuthIdentity) (calls : List (Env × StoreCall)) (db db' : Db)
    → Held c db
    → Ends env c db db'
    → validate_auth_session later c (run_store calls db') ≡ err not_found
ended_session-stays_refused env later c calls db db' held ends =
    Ended-refused later c (run_store calls db')
      (run_store-Shut c calls db' (
        Ends-Held env c db db' held ends,
        Ends-Ended env c db db' (known_row c db.auth_sessions held.row) ends,
      )).1
