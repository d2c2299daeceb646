-- ===== src/Service/Ceremonies/Once.antt =====
-- A ceremony is finished once: its challenge is consumed before anything else is done.
use along.Prelude.{
  ℕ, ◌≡◌, ◌≤◌, refl, String, false, Option, none, some, List, [], ◌∷◌, find, arith, All-mono,
  All-of-find, find-none,
}
use along.Domain.Models.{AuthIdentity, DeviceInfo}
use along.Store.Result.{err, not_found}
use along.Store.Schema.{Db, Env, ChallengeRow}
use along.Store.Tx.{◌>>=◌}
use along.Store.Auth.Challenges.{Challenge, consume_challenge, is_usable}
use along.Store.Auth.Challenges.Laws.{consume_again}
use along.Store.Auth.Accounts.{
  WebauthnAccount, get_webauthn_account_by_id, get_webauthn_account_by_handle,
}
use along.Store.Auth.Spared.{
  get_webauthn_account-Spares, get_account-Spares, activate_account-Spares,
  create_login_session-Spares,
}
use along.Http.Handler.{
  Outcome, done, failed, app, Handler, call, attempt, ◌>>=◌ as then, Preserves, Preserves-call,
  Preserves-done, Preserves-guard, Preserves-attempt, Preserves-bind, bind-reaches,
}
use along.Service.{Libraries, RecoveryKit, or_other, auth_result}
use along.Service.Ceremonies.{
  Webauthn, Credentials, ceremony_expired, or_expired, or_no_account, or_invalid_passkey,
  hydrate_each, hydrate_user, register_passkey, finish_account_registration,
}
use along.Service.Ceremonies.Logins.{select_user, or_unknown_passkey, login_passkey, finish_login}

module _ (later : Env) (id : ℕ) (purpose : String) where
  -- No row can be consumed any more.
  abbrev IsSpent : List ChallengeRow → Type 0
  IsSpent rows = find (is_usable later id purpose) rows ≡ none

  abbrev Spent : Db → Type 0
  Spent db = IsSpent db.auth_challenges

  unusable-later :
      (env : Env) (c : ChallengeRow)
      → env.clock ≤ later.clock
      → is_usable env id purpose c ≡ false
      → is_usable later id purpose c ≡ false
  unfolding is_usable
  unusable-later env c le miss = ground arith

  consume_challenge-Spent :
      (env : Env) (db : Db)
      → env.clock ≤ later.clock
      → Spent (call (consume_challenge env id purpose) db).1
  unfolding consume_challenge ◌>>=◌
  consume_challenge-Spent env db le = go (find (is_usable env id purpose) db.auth_challenges) refl
    where
      go :
          (found : Option ChallengeRow)
          → find (is_usable env id purpose) db.auth_challenges ≡ found
          → Spent (call (consume_challenge env id purpose) db).1
      go none e = rw e (
          find-none _ _
            (All-mono _ _ (λ c. unusable-later env c le) db.auth_challenges (All-of-find _ _ e)))
      go (some c) e = rw e (consume_again env later id purpose db.auth_challenges le)

  refuse-Spent : (db : Db) → Spent db → consume_challenge later id purpose db ≡ err not_found
  unfolding consume_challenge ◌>>=◌
  refuse-Spent db spent = rw spent refl

  or_other-Spent : {A : Type 0} (o : Option A) → Preserves Spent (or_other o)
  or_other-Spent none = Preserves-done _
  or_other-Spent (some a) = Preserves-done _

  auth_result-Spent :
      (libs : Libraries) (identity : AuthIdentity) (raw : String) (kit : Option RecoveryKit)
      → Preserves Spent (auth_result libs identity raw kit)
  unfolding auth_result
  auth_result-Spent libs identity raw kit = Preserves-bind _ _ (or_other-Spent _) λ access.
      Preserves-bind _ _ (Preserves-call _ (get_account-Spares _ IsSpent))
        λ account. Preserves-done _

  hydrate_each-Spent :
      (lib : Webauthn) (raws : List String) → Preserves Spent (hydrate_each lib raws)
  unfolding hydrate_each
  hydrate_each-Spent lib [] = Preserves-done _
  hydrate_each-Spent lib (raw ∷ raws) =
      Preserves-bind _ _ (or_other-Spent _)
        λ c. Preserves-bind _ _ (hydrate_each-Spent lib raws) λ cs. Preserves-done _

  hydrate_user-Spent :
      (lib : Webauthn) (account : WebauthnAccount) → Preserves Spent (hydrate_user lib account)
  unfolding hydrate_user
  hydrate_user-Spent lib account =
      Preserves-bind _ _ (hydrate_each-Spent lib account.credentials) λ cs. Preserves-done _

  or_no_account-Spent :
      (message : String) (o : Option ℕ) → Preserves Spent (or_no_account message o)
  or_no_account-Spent message none = Preserves-done _
  or_no_account-Spent message (some account) = Preserves-done _

  or_invalid_passkey-Spent :
      {A : Type 0} (status : ℕ) (o : Option A) → Preserves Spent (or_invalid_passkey status o)
  or_invalid_passkey-Spent status none = Preserves-done _
  or_invalid_passkey-Spent status (some a) = Preserves-done _

  or_expired-Spent :
      {A : Type 0} (message : String) (o : Outcome A) → Preserves Spent (or_expired message o)
  or_expired-Spent message (done a) = Preserves-done _
  or_expired-Spent message (failed f) = Preserves-done _

  or_unknown_passkey-Spent : {A : Type 0} (o : Outcome A) → Preserves Spent (or_unknown_passkey o)
  or_unknown_passkey-Spent (done a) = Preserves-done _
  or_unknown_passkey-Spent (failed f) = Preserves-done _

  register_passkey-Spent :
      (libs : Libraries) (lib : Webauthn) (env : Env) (drawn : Credentials) (challenge : Challenge)
      (request : String) (device : DeviceInfo) (label : String)
      → Preserves Spent (register_passkey libs lib env drawn challenge request device label)
  unfolding register_passkey get_webauthn_account_by_id
  register_passkey-Spent libs lib env drawn challenge request device label =
      Preserves-bind _ _ (or_no_account-Spent _ _) λ account.
        Preserves-bind _ _ (Preserves-call _ (get_webauthn_account-Spares _ IsSpent)) λ found.
          Preserves-bind _ _ (hydrate_user-Spent lib found) λ user.
            Preserves-bind _ _ (or_other-Spent _) λ session.
              Preserves-bind _ _ (or_invalid_passkey-Spent _ _) λ credential.
                Preserves-bind _ _ (or_other-Spent _) λ encoded.
                  Preserves-bind _ _ (or_other-Spent _) λ kit.
                    Preserves-bind _ _ (or_other-Spent _) λ new.
                      Preserves-bind _ _
                        (Preserves-call _ (activate_account-Spares env _ _ _ _ _ device _ IsSpent))
                        λ identity. auth_result-Spent libs identity _ _

  select_user-Spent :
      (lib : Webauthn) (named : List ℕ × ℕ) → Preserves Spent (select_user lib named)
  unfolding select_user get_webauthn_account_by_handle
  select_user-Spent lib (raw_id, handle) =
      Preserves-bind _ _ (Preserves-call _ (get_webauthn_account-Spares _ IsSpent)) λ account.
        Preserves-bind _ _ (hydrate_user-Spent lib account)
          λ user. Preserves-bind _ _ (Preserves-guard _ _) λ _. Preserves-done _

  login_passkey-Spent :
      (libs : Libraries) (lib : Webauthn) (env : Env) (drawn : Credentials) (challenge : Challenge)
      (request : String) (device : DeviceInfo)
      → Preserves Spent (login_passkey libs lib env drawn challenge request device)
  unfolding login_passkey
  login_passkey-Spent libs lib env drawn challenge request device =
      Preserves-bind _ _ (or_other-Spent _) λ session.
        Preserves-bind _ _ (or_invalid_passkey-Spent _ _) λ named.
          Preserves-bind _ _ (Preserves-attempt _ (select_user-Spent lib named)) λ outcome.
            Preserves-bind _ _ (or_unknown_passkey-Spent outcome) λ user.
              Preserves-bind _ _ (or_invalid_passkey-Spent _ _) λ credential.
                Preserves-bind _ _ (or_other-Spent _) λ encoded.
                  Preserves-bind _ _ (or_other-Spent _) λ new.
                    Preserves-bind _ _
                      (Preserves-call _ (create_login_session-Spares env _ _ _ device _ IsSpent))
                      λ identity. auth_result-Spent libs identity _ _

  -- A ceremony that consumes its challenge first has spent it at its end.
  ceremony-Spent :
      {A : Type 0} (env : Env) (message : String) (k : Challenge → Handler A) (db : Db)
      → env.clock ≤ later.clock
      → ((challenge : Challenge) → Preserves Spent (k challenge))
      → Spent
          (then
            (attempt (call (consume_challenge env id purpose)))
            (λ outcome. then (or_expired message outcome) k)
            db).1
  unfolding attempt
  ceremony-Spent env message k db le keeps =
      bind-reaches _ _ (λ outcome. Preserves-bind _ _ (or_expired-Spent message outcome) keeps) db
        (consume_challenge-Spent env db le)

  refuse_ceremony :
      {A : Type 0} (message : String) (k : Challenge → Handler A) (db : Db)
      → Spent db
      → then
          (attempt (call (consume_challenge later id purpose)))
          (λ outcome. then (or_expired message outcome) k)
          db
        ≡ (failed (app (ceremony_expired message)), db)
  unfolding attempt then
  refuse_ceremony message k db spent = rw (refuse-Spent db spent) refl

module _ (libs libs' : Libraries) (lib lib' : Webauthn) (env later : Env) where
  module _ (drawn drawn' : Credentials) (id : ℕ) (request request' : String) where
    module _ (device device' : DeviceInfo) where
      -- After an attempt to finish a registration, whatever its outcome, any attempt with the same
      -- challenge at the same or a later time is refused with ceremony_expired, and changes nothing.
      pub finish_account_registration-once :
          (label label' : String) (db : Db)
          → env.clock ≤ later.clock
          → let after =
              (finish_account_registration libs lib env drawn id request device label db).1 in
            finish_account_registration libs' lib' later drawn' id request' device' label' after
            ≡ (failed (app (ceremony_expired "Start the passkey setup again.")), after)
      unfolding finish_account_registration
      finish_account_registration-once label label' db le =
          refuse_ceremony later id "register_account" _ _ _ (
            ceremony-Spent later id "register_account" env _ _ db le (λ c.
              register_passkey-Spent later id "register_account" libs lib env drawn c request device
                label))

      -- After an attempt to finish a login, whatever its outcome, any attempt with the same challenge
      -- at the same or a later time is refused with ceremony_expired, and changes nothing.
      pub finish_login-once :
          (db : Db)
          → env.clock ≤ later.clock
          → let after = (finish_login libs lib env drawn id request device db).1 in
            finish_login libs' lib' later drawn' id request' device' after
            ≡ (failed (app (ceremony_expired "Start passkey sign-in again.")), after)
      unfolding finish_login
      finish_login-once db le = refuse_ceremony later id "login" _ _ _ (
          ceremony-Spent later id "login" env _ _ db le
            (λ c. login_passkey-Spent later id "login" libs lib env drawn c request device))
