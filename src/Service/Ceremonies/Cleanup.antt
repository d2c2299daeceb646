-- ===== src/Service/Ceremonies/Cleanup.antt =====
-- A registration that cannot be begun leaves no account behind.
use along.Prelude.{
  ℕ, ◌≡◌, ◌≢◌, ap, any-of-All, str_eq, ◌||◌, refl, ◌∙◌, String, true, false, Option, none, some,
  List, [], ◌∷◌, ◌++◌, ◌==◌, ==_refl, arith, any, delete, any-append, delete-append_one, All-mono,
  All-of-any, trim_text, subst,
}
use along.Domain.Models.{Account}
use along.Store.Result.{ok}
use along.Store.Schema.{Db, Env, AccountRow, pending}
use along.Store.Tx.{Post, Tx, Keeps, >>=-inv}
use along.Store.Auth.Accounts.{
  insert_account, create_pending_account, delete_pending_account, cascade_account,
  is_pending_account, account_of,
}
use along.Store.Auth.Challenges.{create_challenge}
use along.Http.Handler.{
  Outcome, done, failed, Failure, other, >>=-done, Preserves-call, Preserves-attempt, call, attempt,
  ◌>>=◌ as then, OnFailure, OnFailure-bind_read, guard-reads, OnFailure-bind, OnFailure-call,
  pure-done, call-done,
}
use along.Service.{or_other}
use along.Service.Ceremonies.{
  Webauthn, Drawn, give_up, or_give_up, or_given_up, begin_for_account, begin_account_registration,
}

give_up-fails :
    (A : Type 0) (account : ℕ) (f : Failure) (db : Db) (a : A) (db' : Db)
    → give_up {A = A} account f db ≢ (done a, db')
unfolding give_up
give_up-fails A account f db a db' e = let (outcome, d, tried, e1) = >>=-done _ _ db a db' e in cc

or_give_up-stays :
    {A : Type 0} (account : ℕ) (o : Option A) (db : Db) (a : A) (db' : Db)
    → or_give_up account o db ≡ (done a, db')
    → db' ≡ db
or_give_up-stays account none db a db' e = absurd (give_up-fails _ account other db a db' e)
or_give_up-stays account (some x) db a db' e = (pure-done x db a db' e).1

-- The account that was inserted last is pending, and the only one of its id.
record IsFresh (row : AccountRow) (before : List AccountRow) : Type 0 where
  unused : any (λ a. a.id == row.id) before ≡ false
  pends : is_pending_account row.id row ≡ true

delete-fresh :
    (row : AccountRow) (before : List AccountRow)
    → IsFresh row before
    → delete (is_pending_account row.id) (before ++ row ∷ []) ≡ before
delete-fresh row before fresh =
    delete-append_one (is_pending_account row.id) before row
      (All-mono _ _ (λ a other. rw other refl) before (All-of-any _ before fresh.unused))
      fresh.pends

fresh-Pending :
    (row : AccountRow) (before : List AccountRow)
    → IsFresh row before
    → any (is_pending_account row.id) (before ++ row ∷ []) ≡ true
fresh-Pending row before fresh =
    ground (arith, any-append (is_pending_account row.id) before (row ∷ []), fresh.pends)

module _ (row : AccountRow) (before : List AccountRow) (fresh : IsFresh row before) where
  abbrev Restored : Db → Type 0
  Restored db = db.accounts ≡ before

  abbrev Inserted : Db → Type 0
  Inserted db = db.accounts ≡ before ++ row ∷ []

  delete_pending_account-Restored :
      (db : Db) → Inserted db → Restored (call (delete_pending_account row.id) db).1
  unfolding delete_pending_account cascade_account
  delete_pending_account-Restored db at =
      rw (at, fresh-Pending row before fresh) (delete-fresh row before fresh)

  give_up-Restored :
      (A : Type 0) (f : Failure) (db : Db)
      → Inserted db
      → OnFailure Restored (give_up {A = A} row.id f db)
  unfolding give_up attempt then
  give_up-Restored A f db at = delete_pending_account-Restored db at

  or_give_up-Restored :
      {A : Type 0} (o : Option A) (db : Db)
      → Inserted db
      → OnFailure Restored (or_give_up row.id o db)
  or_give_up-Restored none db at = give_up-Restored _ _ db at
  or_give_up-Restored (some a) db at = tt

  or_given_up-Restored :
      {A : Type 0} (o : Outcome A) (db : Db)
      → Inserted db
      → OnFailure Restored (or_given_up row.id o db)
  or_given_up-Restored (done a) db at = tt
  or_given_up-Restored (failed f) db at = give_up-Restored _ f db at

  create_challenge-Inserted :
      (id : ℕ) (account : Option ℕ) (purpose session : String) (expires_at : ℕ)
      → Keeps Inserted (create_challenge id account purpose session expires_at)
  unfolding create_challenge
  create_challenge-Inserted id account purpose session expires_at = record {
    run = λ db at a db' e. ground (arith, at);
  }

  begin_for_account-Restored :
      (lib : Webauthn) (env : Env) (drawn : Drawn) (db : Db)
      → Inserted db
      → OnFailure Restored (begin_for_account lib env drawn (account_of row) db)
  unfolding begin_for_account account_of attempt
  begin_for_account-Restored lib env drawn db at =
      OnFailure-bind Restored _ _ db (or_give_up-Restored _ db at) λ ceremony d begun.
        let at1 : Inserted d =
          ap (λ x. x.accounts) (or_give_up-stays row.id _ db ceremony d begun) ∙ at in
        OnFailure-bind Restored _ _ d (or_give_up-Restored _ d at1) λ session d1 encoded.
          let at2 : Inserted d1 =
            ap (λ x. x.accounts) (or_give_up-stays row.id _ d session d1 encoded) ∙ at1 in
          OnFailure-bind Restored _ _ d1 tt λ outcome d2 tried.
            let at3 : Inserted d2 =
              subst (λ r. Inserted r.1) tried
                ((Preserves-attempt _ (Preserves-call _ (create_challenge-Inserted _ _ _ _ _))).run
                  d1 at2) in
            OnFailure-bind Restored _ _ d2 (or_given_up-Restored outcome d2 at3) λ u d3 made. tt

abbrev row_of : Env → Drawn → ℕ → String → String → AccountRow
row_of env drawn handle name recovery_handle = record {
  id = drawn.account_id;
  webauthn_user_handle = handle;
  display_name = name;
  recovery_handle = recovery_handle;
  status = pending;
  created_at = env.clock;
}

insert_account-inserts :
    (row : AccountRow) (db : Db) (u : Unit {0}) (db' : Db)
    → insert_account row db ≡ ok (u, db')
    → (db'.accounts ≡ db.accounts ++ row ∷ [])
      × (any
            (λ a.
              a.id == row.id
              || a.webauthn_user_handle == row.webauthn_user_handle
              || str_eq a.recovery_handle row.recovery_handle)
            db.accounts
          ≡ false)
unfolding insert_account
insert_account-inserts row db u db' e = (ground arith, ground arith)

create_pending_account-inserts :
    (env : Env) (drawn : Drawn) (handle : ℕ) (name recovery_handle : String) (db : Db)
    (account : Account) (db' : Db)
    → create_pending_account env drawn.account_id handle name recovery_handle db ≡ ok (account, db')
    → (account ≡ account_of (row_of env drawn handle name recovery_handle))
      × (db'.accounts ≡ db.accounts ++ row_of env drawn handle name recovery_handle ∷ [])
      × (any (λ a. a.id == drawn.account_id) db.accounts ≡ false)
unfolding create_pending_account
create_pending_account-inserts env drawn handle name recovery_handle db account db' e =
    let row = row_of env drawn handle name recovery_handle in
    let (u, d, inserted, made) = >>=-inv (insert_account row) _ e in
    let (rows, untaken) = insert_account-inserts row db u d inserted in
    let (same, at) : (account ≡ account_of row) × (db' ≡ d) =
      subst (Post (λ a x. (a ≡ account_of row) × (x ≡ d))) made (refl, refl) in
    (
      same,
      rw at rows,
      any-of-All _ _ (All-mono _ _ (λ a other. ground arith) db.accounts (All-of-any _ _ untaken)),
    )

or_other-reads : {A : Type 0} (o : Option A) (db : Db) → (or_other o db).1 ≡ db
or_other-reads none db = refl
or_other-reads (some a) db = refl

-- Where BeginAccountRegistration fails, the accounts are what they were before it. A call of the
-- store has no error from outside the database here, so the deletion that cleans up succeeds.
pub begin_account_registration-Restored :
    (lib : Webauthn) (env : Env) (drawn : Drawn) (display_name : String) (db : Db)
    → OnFailure
        (λ d. d.accounts ≡ db.accounts)
        (begin_account_registration lib env drawn display_name db)
unfolding begin_account_registration
begin_account_registration-Restored lib env drawn display_name db =
    OnFailure-bind_read _ _ _ db (guard-reads _ _ db) refl λ u.
      OnFailure-bind_read _ _ _ db (or_other-reads drawn.user_handle db) refl λ handle.
        OnFailure-bind_read _ _ _ db (or_other-reads drawn.recovery_handle db) refl
          λ recovery_handle.
            let create : Tx Account =
              create_pending_account env drawn.account_id handle (trim_text display_name)
                recovery_handle in
            OnFailure-bind _ _ _ db (OnFailure-call (λ d. d.accounts ≡ db.accounts) create db refl)
              λ account d created.
                let row = row_of env drawn handle (trim_text display_name) recovery_handle in
                let (same, rows, unused) =
                  create_pending_account-inserts env drawn handle (trim_text display_name)
                    recovery_handle db account d (call-done create db account d created) in
                rw same (
                  begin_for_account-Restored row db.accounts
                    (record { unused = unused; pends = rw (==_refl drawn.account_id) refl }) lib env
                    drawn d rows)
