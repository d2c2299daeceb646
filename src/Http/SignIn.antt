-- ===== src/Http/SignIn.antt =====
-- The handlers of server/internal/httpapi/auth_handlers.go. What decodeJSON leaves of a body is an
-- argument, and so are the headers; a path parameter is its text. The limit of the size of a body
-- that a passkey response comes in is part of what the library makes of the request.
pub mod Accounts
use along.Prelude.{
  ℕ, String, Bool, true, false, not, ◌&&◌, Option, none, some, List, map, leb, str_eq, trim_text,
  is_lower, char_length, if◌then◌else◌,
}
use along.Domain.Models.{Account, AuthIdentity, DeviceInfo}
use along.Store.Schema.{Env}
use along.Store.Tx.{gets}
use along.Store.Auth.Accounts.{get_account}
use along.Store.Auth.Identity.{
  CredentialRecord, AuthSessionRecord, InstallationRecord, list_credentials, list_sessions,
  list_installations,
}
use along.Store.Auth.Revoke.{revoke_credential, revoke_session, revoke_installation}
use along.Http.Handler.{AppError, new_error, app, Handler, pure, fail, call, guard, ◌>>=◌, ◌>>◌}
use along.Http.Sync.{or_refuse}
use along.Http.Sessions.{Decoded, Reply, or_undecoded}
use along.Service.{
  Libraries, OpaqueToken, AuthResult, RecoveryKit, refresh, recover, regenerate_recovery_codes,
}
use along.Service.Ceremonies.{
  Webauthn, Drawn, Credentials, CeremonyOptions, begin_account_registration,
  finish_account_registration,
}
use along.Service.Ceremonies.Logins.{
  begin_login, finish_login, begin_add_passkey, finish_add_passkey, decode_credential_id,
}

-- The headers that the handlers read.
pub record Headers : Type 0 where
  pub challenge : String
  pub installation_id : String
  pub platform : String
  pub device_name : String
  pub passkey_label : String

abbrev pub reply : {A : Type 0} → ℕ → A → Handler (Reply A)
reply status a = pure (record { status = status; replayed = false; value = a })

abbrev or_error : {A : Type 0} → AppError → Option A → Handler A
or_error e none = fail (app e)
or_error e (some a) = pure a

-- ceremonyID
unfoldable pub ceremony_id : Libraries → Headers → Handler ℕ
unfolding new_error
ceremony_id libs h =
    or_error (new_error 400 "invalid_challenge" "The ceremony challenge is missing or invalid.")
      (libs.parse_uuid (trim_text h.challenge))

-- The platform in lower case.
unfoldable pub platform_of : String → Option String
platform_of text =
    if is_lower text "ios"
    then some "ios"
    else if is_lower text "android"
    then some "android"
    else none

-- deviceInfo
unfoldable pub device_info : Libraries → Headers → Handler DeviceInfo
unfolding new_error platform_of
device_info libs h = do
  id ←
      or_error (new_error 400 "invalid_installation" "A stable installation ID is required.")
        (libs.parse_uuid (trim_text h.installation_id))
  platform ←
      or_error (new_error 400 "invalid_platform" "Platform must be ios or android.")
        (platform_of (trim_text h.platform))
  let name = trim_text h.device_name
  guard (not (str_eq name "") && leb (char_length name) 120)
      (new_error 400 "invalid_device_name" "Use a device name between 1 and 120 characters.")
  pure (record { id = id; platform = platform; name = name })

unfoldable pub register_options :
    Webauthn → Env → Drawn → Decoded String → Handler (Reply CeremonyOptions)
register_options lib env drawn body = do
  display_name ← or_undecoded body
  options ← begin_account_registration lib env drawn display_name
  reply 200 options

unfoldable pub register_finish :
    Libraries → Webauthn → Env → Credentials → Headers → String → Handler (Reply AuthResult)
unfolding ceremony_id device_info
register_finish libs lib env drawn h request = do
  challenge_id ← ceremony_id libs h
  device ← device_info libs h
  result ←
      finish_account_registration libs lib env drawn challenge_id request device h.passkey_label
  reply 201 result

unfoldable pub login_options :
    Webauthn → Env → ℕ → Decoded (Unit {0}) → Handler (Reply CeremonyOptions)
login_options lib env challenge_id body = do
  empty ← or_undecoded body
  options ← begin_login lib env challenge_id
  reply 200 options

unfoldable pub login_finish :
    Libraries → Webauthn → Env → Credentials → Headers → String → Handler (Reply AuthResult)
unfolding ceremony_id device_info
login_finish libs lib env drawn h request = do
  challenge_id ← ceremony_id libs h
  device ← device_info libs h
  result ← finish_login libs lib env drawn challenge_id request device
  reply 200 result

-- `recover`; `to_upper` is strings.ToUpper, with which the service reads the handle of the account.
unfoldable pub recover_handler :
    Libraries
    → (String → String)
    → Env
    → Option OpaqueToken
    → ℕ
    → Headers
    → Decoded (String × String)
    → Handler (Reply AuthResult)
unfolding device_info
recover_handler libs to_upper env random session_id h body = do
  given ← or_undecoded body
  device ← device_info libs h
  result ← recover libs env random session_id (to_upper (trim_text given.0)) given.1 device
  reply 200 result

unfoldable pub refresh_handler :
    Libraries → Env → Option OpaqueToken → Decoded String → Handler (Reply AuthResult)
refresh_handler libs env random body = do
  raw ← or_undecoded body
  result ← refresh libs env random raw
  reply 200 result
