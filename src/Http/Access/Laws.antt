-- ===== src/Http/Access/Laws.antt =====
-- An access token that served to log out is refused afterwards.
use along.Prelude.{
  ℕ, ◌≡◌, refl, sym, ap, subst, Bool-cases, inl, inr, ◌∙◌, String, Bool, true, Option, none, some,
  List, [], ◌∷◌, ◌==◌, any, find, arith,
}
use along.Domain.Models.{AuthIdentity}
use along.Store.Result.{ok, err, not_found}
use along.Store.Schema.{Db, Env, AuthSessionRow}
use along.Store.Tx.{Triple, Triple-bind, Triple-post, Keeps-gets, Keeps-or_fail, or_fail}
use along.Store.Auth.Identity.{validate_auth_session, claimed_row, is_claimed_session}
use along.Store.Auth.Calls.{AuthCall, run_auth}
use along.Store.Auth.Revoke.{revoke_session}
use along.Store.Auth.Revoked.{by_logout, ended_session-refused}
use along.Http.Handler.{
  err_unauthorized, Outcome, done, failed, app, call, attempt, ◌>>=◌ as then, >>=-done,
  attempt-done, pure-done, call-done,
}
use along.Http.Access.{bearer_token, authenticate, or_unauthorized, or_refused}
use along.Http.Sessions.{Reply}
use along.Http.SignIn.Accounts.{logout}

-- The claims of a token do not change, while it is accepted.
pub record IsStable (parse : ℕ → String → Option AuthIdentity) : Type 0 where
  pub same :
      (t later : ℕ) (raw : String) (c c' : AuthIdentity)
      → parse t raw ≡ some c
      → parse later raw ≡ some c'
      → c' ≡ c

abbrev HasSession : AuthIdentity → Db → Type 0
HasSession c db = any (λ s. s.id == c.session_id) db.auth_sessions ≡ true

-- What ValidateAuthSession found.
record IsValidated (claimed : AuthIdentity) (db : Db) (identity : AuthIdentity) : Type 0 where
  account : identity.account_id ≡ claimed.account_id
  session : identity.session_id ≡ claimed.session_id
  known : HasSession claimed db

any-found :
    (q r : AuthSessionRow → Bool) (rows : List AuthSessionRow) (s : AuthSessionRow)
    → find q rows ≡ some s
    → ((x : AuthSessionRow) → q x ≡ true → r x ≡ true)
    → any r rows ≡ true
unfolding find
any-found q r [] s e implies = cc
any-found q r (x ∷ xs) s e implies = elim (Bool-cases (q x)) [
  | inl hit ↦ ground (arith, implies x hit)
  | inr miss ↦ ground (arith, any-found q r xs s (ground arith) implies)
]

validate_auth_session-IsValidated :
    (env : Env) (claimed identity : AuthIdentity) (db db' : Db)
    → validate_auth_session env claimed db ≡ ok (identity, db')
    → IsValidated claimed db identity
unfolding validate_auth_session claimed_row is_claimed_session
validate_auth_session-IsValidated env claimed identity db db' e = total.run db refl identity db' e
  where
    row_known :
        (row : Option AuthSessionRow)
        → Triple
            (λ d. row ≡ claimed_row env claimed db)
            (or_fail not_found row)
            (λ s d. HasSession claimed db)
    row_known none = Triple-post _ λ d e. tt
    row_known (some s) =
        Triple-post _ λ d e. any-found _ _ db.auth_sessions s (sym e) (λ x hit. ground arith)

    valid :
        (name : String) (pair : Option ℕ)
        → HasSession claimed db
        → IsValidated claimed db (record claimed { display_name = name; pair_id = pair })
    valid name pair known = record { account = refl; session = refl; known = known }

    total :
        Triple (λ d. d ≡ db) (validate_auth_session env claimed) (λ i d. IsValidated claimed db i)
    total =
        Triple-bind {R = λ row d. row ≡ claimed_row env claimed db} _ _ _
          (Triple-post _ (λ d same. ap (claimed_row env claimed) same))
          λ row. Triple-bind {R = λ s d. HasSession claimed db} _ _ _ (row_known row) λ s.
            Triple-bind {R = λ i d. HasSession claimed db} _ _ _ (Keeps-gets _) λ install_row.
              Triple-bind {R = λ i d. HasSession claimed db} _ _ _ (Keeps-or_fail _ install_row)
                λ install.
                  Triple-bind {R = λ i d. HasSession claimed db} _ _ _ (Keeps-gets _) λ account_row.
                    Triple-bind {R = λ i d. HasSession claimed db} _ _ _
                      (Keeps-or_fail _ account_row)
                      λ account.
                        Triple-bind {R = λ i d. HasSession claimed db} _ _ _ (Keeps-gets _)
                          λ pair. Triple-post _ (λ d known. valid _ _ known)

or_unauthorized-done :
    {A : Type 0} (o : Option A) (db : Db) (a : A) (db' : Db)
    → or_unauthorized o db ≡ (done a, db')
    → (o ≡ some a) × (db' ≡ db)
or_unauthorized-done none db a db' e = cc
or_unauthorized-done (some x) db a db' e =
    let (same, at) = pure-done x db a db' e in (ap some same, at)

or_refused-done :
    {A : Type 0} (o : Outcome A) (db : Db) (a : A) (db' : Db)
    → or_refused o db ≡ (done a, db')
    → o ≡ done a
or_refused-done (done x) db a db' e = cc
or_refused-done (failed f) db a db' e = cc

-- A request that passed authenticate carried a token whose claims ValidateAuthSession accepted.
record IsAuthenticated (parse : String → Option AuthIdentity) (env : Env) (header : String)
    (db : Db) (identity : AuthIdentity) : Type 0 where
  raw : String
  claimed : AuthIdentity
  bears : bearer_token header ≡ some raw
  parses : parse raw ≡ some claimed
  validated : IsValidated claimed db identity

authenticate-IsAuthenticated :
    (parse : String → Option AuthIdentity) (env : Env) (header : String) (db : Db)
    (identity : AuthIdentity) (db' : Db)
    → authenticate parse env header db ≡ (done identity, db')
    → IsAuthenticated parse env header db identity
unfolding authenticate
authenticate-IsAuthenticated parse env header db identity db' e =
    let (raw, d, e1, f1) = >>=-done _ _ db identity db' e in
    let (bears, at1) = or_unauthorized-done (bearer_token header) db raw d e1 in
    let (claimed, d1, e2, f2) = >>=-done _ _ d identity db' f1 in
    let (parses, at2) = or_unauthorized-done (parse raw) d claimed d1 e2 in
    let (outcome, d2, e3, f3) = >>=-done _ _ d1 identity db' f2 in
    let valid : call (validate_auth_session env claimed) d1 ≡ (done identity, d2) =
      attempt-done _ d1 outcome d2 e3
      ∙ ap (λ o. (o, d2)) (or_refused-done outcome d2 identity db' f3) in
    record {
      raw = raw;
      claimed = claimed;
      bears = bears;
      parses = parses;
      validated =
          subst (λ x. IsValidated claimed x identity) (at2 ∙ at1)
            (validate_auth_session-IsValidated env claimed identity d1 d2
              (call-done (validate_auth_session env claimed) d1 identity d2 valid));
    }

authenticate-bearer_token :
    (parse : String → Option AuthIdentity) (env : Env) (header raw : String) (db : Db)
    → bearer_token header ≡ some raw
    → authenticate parse env header db
      ≡ then
          (or_unauthorized (parse raw))
          (λ c. then (attempt (call (validate_auth_session env c))) or_refused)
          db
unfolding authenticate then
authenticate-bearer_token parse env header raw db bears = rw bears refl

refuse-ended :
    (later : Env) (o : Option AuthIdentity) (claimed : AuthIdentity) (db : Db)
    → ((c : AuthIdentity) → o ≡ some c → c ≡ claimed)
    → validate_auth_session later claimed db ≡ err not_found
    → then
        (or_unauthorized o)
        (λ c. then (attempt (call (validate_auth_session later c))) or_refused)
        db
      ≡ (failed (app err_unauthorized), db)
unfolding then attempt
refuse-ended later none claimed db same refused = refl
refuse-ended later (some c) claimed db same refused = rw (same c refl, refused) refl

-- An access token, of which no two times give different claims, that served to log out is refused by
-- any further request, whatever sign-ins, rotations and revocations are made in between.
pub logout-locks_out :
    (parse : ℕ → String → Option AuthIdentity)
    → IsStable parse
    → (env later : Env) (header : String) (identity : AuthIdentity) (answer : Reply (Unit {0}))
      (calls : List (Env × AuthCall)) (db db' : Db)
    → authenticate (parse env.now) env header db ≡ (done identity, db)
    → logout env identity db ≡ (done answer, db')
    → authenticate (parse later.now) later header (run_auth calls db')
      ≡ (failed (app err_unauthorized), run_auth calls db')
unfolding logout
logout-locks_out parse stable env later header identity answer calls db db' entered left =
    let a = authenticate-IsAuthenticated (parse env.now) env header db identity db entered in
    let refused : validate_auth_session later a.claimed (run_auth calls db') ≡ err not_found =
      ended_session-refused env later a.claimed calls db db' a.validated.known
        (by_logout "logout" (revoked a.claimed a.validated)) in
    authenticate-bearer_token (parse later.now) later header a.raw (run_auth calls db') a.bears
    ∙ refuse-ended later (parse later.now a.raw) a.claimed (run_auth calls db')
        (λ c again. stable.same env.now later.now a.raw a.claimed c a.parses again) refused
  where
    revoked :
        (c : AuthIdentity)
        → IsValidated c db identity
        → revoke_session env c.account_id c.session_id "logout" db ≡ ok (tt, db')
    revoked c v =
        let (u, d, ended, e1) = >>=-done _ _ db answer db' left in
        let at : db' ≡ d = (pure-done _ d answer db' e1).1 in
        subst (λ a. revoke_session env a c.session_id "logout" db ≡ ok (tt, db')) v.account
          (subst (λ x. revoke_session env identity.account_id x "logout" db ≡ ok (tt, db'))
            v.session
            (rw at (
              call-done (revoke_session env identity.account_id identity.session_id "logout") db u d
                ended)))
