-- ===== src/Service/Ceremonies.antt =====
-- The passkey ceremonies of server/internal/auth/service.go. The library go-webauthn, with the JSON
-- of what it keeps between the two halves of a ceremony, is a parameter, and so are the random
-- values. FinishPasskeyLogin asks its caller for the user that the response names, and then
-- verifies the response: `asserted` is what the response names, and `verify_login` the
-- verification.
pub mod Logins
pub mod Once
pub mod Cleanup
use along.Prelude.{
  ℕ, ◌+◌, String, Bool, true, false, ◌&&◌, Option, none, some, List, [], ◌∷◌, ◌==◌, any, leb, ltb,
  str_eq, bytes_eq, char_length, between, trim_text, text_prefix, if◌then◌else◌,
}
use along.Domain.Models.{Account, AuthIdentity, DeviceInfo}
use along.Store.Schema.{Env}
use along.Store.Auth.Accounts.{
  WebauthnAccount, create_pending_account, delete_pending_account, get_webauthn_account_by_id,
  get_webauthn_account_by_handle, add_credential,
}
use along.Store.Auth.Challenges.{Challenge, create_challenge, consume_challenge}
use along.Store.Auth.Logins.{Grant, activate_account, create_login_session}
use along.Http.Handler.{
  AppError, new_error, Outcome, done, failed, Failure, app, other, Handler, pure, fail, call,
  attempt, guard, ◌>>=◌, ◌>>◌,
}
use along.Service.{Libraries, OpaqueToken, RecoveryKit, AuthResult, or_other, auth_result}

-- webauthn.Credential: its id, and the rest of it.
pub record Passkey : Type 0 where
  pub id : List ℕ
  pub content : String

-- webAuthnUser
pub record WebauthnUser : Type 0 where
  pub account : WebauthnAccount
  pub credentials : List Passkey

-- A new ceremony: the options for the client, and the data of its session.
pub record Ceremony : Type 0 where
  pub options : String
  pub session : String

pub record Webauthn : Type 0 where
  pub decode_credential : String → Option Passkey
  pub encode_credential : Passkey → Option String
  pub encode_session : String → Option String
  pub decode_session : String → Option String
  pub begin_registration : WebauthnUser → Option Ceremony
  pub finish_registration : WebauthnUser → String → String → Option Passkey
  pub begin_login : Option Ceremony
  pub asserted : String → Option (List ℕ × ℕ)
  pub verify_login : WebauthnUser → String → String → Option Passkey
  pub challenge_ttl : ℕ

-- CeremonyOptions
pub record CeremonyOptions : Type 0 where
  pub challenge_id : ℕ
  pub public_key : String

-- What a registration draws.
pub record Drawn : Type 0 where
  pub account_id : ℕ
  pub user_handle : Option ℕ
  pub recovery_handle : Option String
  pub challenge_id : ℕ

unfoldable pub invalid_display_name : AppError
unfolding new_error
invalid_display_name =
    new_error 422 "invalid_display_name" "Use a name between 1 and 80 characters."

-- An error after the account was created: it is deleted. An error of the deletion is discarded, and
-- here it has none, as a call of the store has no error from outside the database.
unfoldable pub give_up : {A : Type 0} → ℕ → Failure → Handler A
give_up account f = do outcome ← attempt (call (delete_pending_account account)); fail f

abbrev pub or_give_up : {A : Type 0} → ℕ → Option A → Handler A
or_give_up account none = give_up account other
or_give_up account (some a) = pure a

abbrev pub or_given_up : {A : Type 0} → ℕ → Outcome A → Handler A
or_given_up account (done a) = pure a
or_given_up account (failed f) = give_up account f

-- The part of BeginAccountRegistration after the account is created.
unfoldable pub begin_for_account : Webauthn → Env → Drawn → Account → Handler CeremonyOptions
unfolding give_up
begin_for_account lib env drawn account = do
  ceremony ← or_give_up account.id (
      lib.begin_registration
        (record { account = record { account = account; credentials = [] }; credentials = [] }))
  session ← or_give_up account.id (lib.encode_session ceremony.session)
  outcome ← attempt (
      call (
        create_challenge drawn.challenge_id (some account.id) "register_account" session
          (env.now + lib.challenge_ttl)))
  created ← or_given_up account.id outcome
  pure (record { challenge_id = drawn.challenge_id; public_key = ceremony.options })

unfoldable pub begin_account_registration :
    Webauthn → Env → Drawn → String → Handler CeremonyOptions
unfolding invalid_display_name begin_for_account
begin_account_registration lib env drawn display_name = do
  guard (between 1 80 (char_length (trim_text display_name))) invalid_display_name
  handle ← or_other drawn.user_handle
  recovery_handle ← or_other drawn.recovery_handle
  account ←
      call (
        create_pending_account env drawn.account_id handle (trim_text display_name) recovery_handle)
  begin_for_account lib env drawn account

unfoldable pub ceremony_expired : String → AppError
unfolding new_error
ceremony_expired message = new_error 410 "ceremony_expired" message

abbrev pub or_expired : {A : Type 0} → String → Outcome A → Handler A
or_expired message (done a) = pure a
or_expired message (failed f) = fail (app (ceremony_expired message))

abbrev pub or_no_account : String → Option ℕ → Handler ℕ
or_no_account message none = fail (app (ceremony_expired message))
or_no_account message (some account) = pure account

unfoldable pub invalid_passkey_response : ℕ → AppError
unfolding new_error
invalid_passkey_response status =
    new_error status "invalid_passkey_response" "The passkey response could not be verified."

abbrev pub or_invalid_passkey : {A : Type 0} → ℕ → Option A → Handler A
or_invalid_passkey status none = fail (app (invalid_passkey_response status))
or_invalid_passkey status (some a) = pure a

hydrate_each : Webauthn → List String → Handler (List Passkey)
hydrate_each lib [] = pure []
hydrate_each lib (raw ∷ raws) = do
  credential ← or_other (lib.decode_credential raw)
  credentials ← hydrate_each lib raws
  pure (credential ∷ credentials)

-- hydrateUser
unfoldable pub hydrate_user : Webauthn → WebauthnAccount → Handler WebauthnUser
unfolding hydrate_each
hydrate_user lib account = do
  credentials ← hydrate_each lib account.credentials
  pure (record { account = account; credentials = credentials })

-- cleanLabel
unfoldable pub clean_label : String → String
clean_label label =
    let text = trim_text label in
    if str_eq text ""
    then "Passkey"
    else if ltb 80 (char_length text)
    then text_prefix 80 text
    else text

-- The grant of a new session, all of it for `refresh_ttl`.
abbrev pub grant_of : Libraries → Env → ℕ → OpaqueToken → Grant
grant_of lib env session_id new = record {
  auth_session_id = session_id;
  session_expires_at = env.now + lib.refresh_ttl;
  refresh_id = new.id;
  refresh_hash = new.hash;
  refresh_expires_at = env.now + lib.refresh_ttl;
}

-- What the end of a ceremony draws: the recovery codes with their hashes, the id of the new session
-- and the refresh token.
pub record Credentials : Type 0 where
  pub recovery : Option (List String × List String)
  pub session_id : ℕ
  pub token : Option OpaqueToken

-- The part of FinishAccountRegistration after the challenge is consumed.
unfoldable pub register_passkey :
    Libraries
    → Webauthn
    → Env
    → Credentials
    → Challenge
    → String
    → DeviceInfo
    → String
    → Handler AuthResult
unfolding hydrate_user clean_label auth_result invalid_passkey_response ceremony_expired
register_passkey libs lib env drawn challenge request device label = do
  id ← or_no_account "Start the passkey setup again." challenge.account_id
  account ← call (get_webauthn_account_by_id id)
  user ← hydrate_user lib account
  session ← or_other (lib.decode_session challenge.session_data)
  credential ← or_invalid_passkey 400 (lib.finish_registration user session request)
  encoded ← or_other (lib.encode_credential credential)
  kit ← or_other drawn.recovery
  new ← or_other drawn.token
  identity ← call (
      activate_account env account.account.id credential.id encoded (clean_label label) kit.1 device
        (grant_of libs env drawn.session_id new))
  auth_result libs identity new.raw (
      some (record {
        account_id = account.account.id;
        recovery_handle = account.account.recovery_handle;
        codes = kit.0;
      }))

unfoldable pub finish_account_registration :
    Libraries → Webauthn → Env → Credentials → ℕ → String → DeviceInfo → String → Handler AuthResult
unfolding register_passkey ceremony_expired
finish_account_registration libs lib env drawn challenge_id request device label = do
  outcome ← attempt (call (consume_challenge env challenge_id "register_account"))
  challenge ← or_expired "Start the passkey setup again." outcome
  register_passkey libs lib env drawn challenge request device label
