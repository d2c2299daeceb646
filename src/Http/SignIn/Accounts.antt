-- ===== src/Http/SignIn/Accounts.antt =====
-- The handlers of server/internal/httpapi/auth_handlers.go for an account that is signed in.
use along.Prelude.{ℕ, String, Bool, true, Option, List, map}
use along.Domain.Models.{Account, AuthIdentity}
use along.Store.Schema.{Env}
use along.Store.Tx.{gets}
use along.Store.Auth.Accounts.{get_account}
use along.Store.Auth.Identity.{
  CredentialRecord, AuthSessionRecord, InstallationRecord, list_credentials, list_sessions,
  list_installations,
}
use along.Store.Auth.Revoke.{revoke_credential, revoke_session, revoke_installation}
use along.Http.Handler.{new_error, Handler, call, guard, ◌>>=◌, ◌>>◌}
use along.Http.Sync.{or_refuse}
use along.Http.Sessions.{Decoded, Reply, or_undecoded}
use along.Service.{Libraries, RecoveryKit, regenerate_recovery_codes}
use along.Service.Ceremonies.{Webauthn, CeremonyOptions}
use along.Service.Ceremonies.Logins.{begin_add_passkey, finish_add_passkey, decode_credential_id}
use along.Http.SignIn.{Headers, reply, ceremony_id}

unfoldable pub me : AuthIdentity → Handler (Reply Account)
me identity = do account ← call (get_account identity.account_id); reply 200 account

unfoldable pub logout : Env → AuthIdentity → Handler (Reply (Unit {0}))
logout env identity = do
  call (revoke_session env identity.account_id identity.session_id "logout")
  reply 204 tt

-- An item of the list of passkeys.
pub record PasskeyItem : Type 0 where
  pub id : String
  pub label : String
  pub created_at : ℕ
  pub last_used_at : Option ℕ

abbrev item_of : (List ℕ → String) → CredentialRecord → PasskeyItem
item_of encode r = record {
  id = encode r.id;
  label = r.label;
  created_at = r.created_at;
  last_used_at = r.last_used_at;
}

-- `encode` is base64.RawURLEncoding.
unfoldable pub passkeys : (List ℕ → String) → AuthIdentity → Handler (Reply (List PasskeyItem))
passkeys encode identity = do
  records ← call (gets (list_credentials identity.account_id))
  reply 200 (map (item_of encode) records)

unfoldable pub add_passkey_options :
    Webauthn → Env → ℕ → AuthIdentity → Decoded (Unit {0}) → Handler (Reply CeremonyOptions)
add_passkey_options lib env challenge_id identity body = do
  empty ← or_undecoded body
  options ← begin_add_passkey lib env challenge_id identity.account_id
  reply 200 options

unfoldable pub add_passkey_finish :
    Libraries → Webauthn → Env → AuthIdentity → Headers → String → Handler (Reply Bool)
unfolding ceremony_id
add_passkey_finish libs lib env identity h request = do
  challenge_id ← ceremony_id libs h
  finish_add_passkey lib env identity.account_id challenge_id request h.passkey_label
  reply 201 true

unfoldable pub revoke_passkey :
    (String → Option (List ℕ)) → Env → AuthIdentity → String → Handler (Reply (Unit {0}))
revoke_passkey base64 env identity path = do
  credential_id ← or_refuse (decode_credential_id base64 path)
  call (revoke_credential env identity.account_id credential_id)
  reply 204 tt

unfoldable pub auth_sessions : Env → AuthIdentity → Handler (Reply (List AuthSessionRecord))
auth_sessions env identity = do
  records ← call (gets (list_sessions env identity.account_id identity.session_id))
  reply 200 records

unfoldable pub revoke_auth_session :
    Libraries → Env → AuthIdentity → String → Handler (Reply (Unit {0}))
revoke_auth_session libs env identity path = do
  session_id ← or_refuse (libs.parse_uuid path)
  call (revoke_session env identity.account_id session_id "user_revoked")
  reply 204 tt

unfoldable pub installations : AuthIdentity → Handler (Reply (List InstallationRecord))
installations identity = do
  records ← call (gets (list_installations identity.account_id))
  reply 200 records

unfoldable pub revoke_installation_handler :
    Libraries → Env → AuthIdentity → String → Handler (Reply (Unit {0}))
revoke_installation_handler libs env identity path = do
  installation_id ← or_refuse (libs.parse_uuid path)
  call (revoke_installation env identity.account_id installation_id)
  reply 204 tt

-- The body is the field `confirm`.
unfoldable pub regenerate_recovery_codes_handler :
    AuthIdentity → Option (List String × List String) → Decoded Bool → Handler (Reply RecoveryKit)
regenerate_recovery_codes_handler identity random body = do
  confirm ← or_undecoded body
  guard confirm
      (new_error 422 "confirmation_required" "Confirm that old recovery codes will stop working.")
  kit ← regenerate_recovery_codes random identity.account_id
  reply 200 kit
