-- ===== src/Store/Auth/Spared.antt =====
-- The calls of the authentication store that end a ceremony leave the challenges as they were.
use along.Prelude.{Bool, ℕ, suc, ◌≡◌, sym, String, List, [], ◌∷◌, arith, subst}
use along.Domain.Models.{DeviceInfo}
use along.Store.Result.{ok}
use along.Store.Schema.{
  Db, Env, AccountRow, ChallengeRow, CredentialRow, AuthSessionRow, RefreshRow,
}
use along.Store.Tx.{
  Tx, Keeps, Keeps-bind, Keeps-pure, Keeps-gets, Keeps-or_fail, Keeps-one, Keeps-modify,
}
use along.Store.Auth.Accounts.{get_webauthn_account, get_account, insert_credential}
use along.Store.Auth.Logins.{
  Grant, upsert_install, insert_auth_session, insert_refresh, create_session, insert_code,
  insert_codes, activate_account, create_login_session,
}

-- What a statement or a call leaves as it was: the challenges.
abbrev pub Spares : {A : Type 0} → Tx A → Type 1
Spares m = (P : List ChallengeRow → Type 0) → Keeps (λ db. P db.auth_challenges) m

Spares-of :
    {A : Type 0} (m : Tx A)
    → ((db : Db) (a : A) (db' : Db) → m db ≡ ok (a, db') → db'.auth_challenges ≡ db.auth_challenges)
    → Spares m
Spares-of m same P = record { run = λ db p a db' e. subst P (sym (same db a db' e)) p }

upsert_install-Spares :
    (env : Env) (account : ℕ) (device : DeviceInfo) → Spares (upsert_install env account device)
unfolding upsert_install
upsert_install-Spares env account device = Spares-of _ λ db a db' e. ground arith

insert_credential-Spares : (row : CredentialRow) → Spares (insert_credential row)
unfolding insert_credential
insert_credential-Spares row = Spares-of _ λ db a db' e. ground arith

insert_code-Spares :
    (account position : ℕ) (hash : String) → Spares (insert_code account position hash)
unfolding insert_code
insert_code-Spares account position hash = Spares-of _ λ db a db' e. ground arith

insert_auth_session-Spares : (row : AuthSessionRow) → Spares (insert_auth_session row)
unfolding insert_auth_session
insert_auth_session-Spares row = Spares-of _ λ db a db' e. ground arith

insert_refresh-Spares : (row : RefreshRow) → Spares (insert_refresh row)
unfolding insert_refresh
insert_refresh-Spares row = Spares-of _ λ db a db' e. ground arith

pub get_webauthn_account-Spares : (q : AccountRow → Bool) → Spares (get_webauthn_account q)
unfolding get_webauthn_account
get_webauthn_account-Spares q P = Keeps-bind _ _ (Keeps-gets _) λ found.
    Keeps-bind _ _ (Keeps-or_fail _ found)
      λ a. Keeps-bind _ _ (Keeps-gets _) λ credentials. Keeps-pure _

pub get_account-Spares : (account : ℕ) → Spares (get_account account)
unfolding get_account
get_account-Spares account P =
    Keeps-bind _ _ (Keeps-gets _) λ found. Keeps-bind _ _ (Keeps-or_fail _ found) λ a. Keeps-gets _

insert_codes-Spares :
    (account position : ℕ) (hashes : List String) → Spares (insert_codes account position hashes)
unfolding insert_codes
insert_codes-Spares account position [] P = Keeps-pure tt
insert_codes-Spares account position (hash ∷ hashes) P =
    Keeps-bind _ _ (insert_code-Spares account position hash P)
      λ _. insert_codes-Spares account (suc position) hashes P

create_session-Spares :
    (env : Env) (account : ℕ) (id : List ℕ) (device : DeviceInfo) (g : Grant)
    → Spares (create_session env account id device g)
unfolding create_session
create_session-Spares env account id device g P =
    Keeps-bind _ _ (upsert_install-Spares env account device P)
      λ _. Keeps-bind _ _ (insert_auth_session-Spares _ P) λ _. insert_refresh-Spares _ P

pub activate_account-Spares :
    (env : Env) (account : ℕ) (id : List ℕ) (credential label : String) (hashes : List String)
    (device : DeviceInfo) (g : Grant)
    → Spares (activate_account env account id credential label hashes device g)
unfolding activate_account
activate_account-Spares env account id credential label hashes device g P = Keeps-one _ _ _ (
    Keeps-bind _ _ (Keeps-modify _ (λ db p. p)) λ _.
      Keeps-bind _ _ (insert_credential-Spares _ P) λ _.
        Keeps-bind _ _ (insert_codes-Spares account 0 hashes P)
          λ _. Keeps-bind _ _ (create_session-Spares env account id device g P) λ _. Keeps-pure _)

pub create_login_session-Spares :
    (env : Env) (account : ℕ) (id : List ℕ) (credential : String) (device : DeviceInfo) (g : Grant)
    → Spares (create_login_session env account id credential device g)
unfolding create_login_session
create_login_session-Spares env account id credential device g P = Keeps-one _ _ _ (
    Keeps-bind _ _ (Keeps-modify _ (λ db p. p))
      λ _. Keeps-bind _ _ (create_session-Spares env account id device g P) λ _. Keeps-pure _)
