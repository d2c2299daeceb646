-- ===== src/Service/Ceremonies/Logins.antt =====
-- The ceremonies of a login and of a further passkey.
use along.Prelude.{ℕ, ◌+◌, String, Option, none, some, List, [], ◌∷◌, ◌==◌, any, bytes_eq}
use along.Domain.Models.{DeviceInfo}
use along.Store.Schema.{Env}
use along.Store.Auth.Accounts.{
  get_webauthn_account_by_id, get_webauthn_account_by_handle, add_credential,
}
use along.Store.Auth.Challenges.{Challenge, create_challenge, consume_challenge}
use along.Store.Auth.Logins.{create_login_session}
use along.Http.Handler.{
  Outcome, done, failed, app, Handler, pure, fail, call, attempt, guard, ◌>>=◌, ◌>>◌,
}
use along.Service.{Libraries, AuthResult, or_other, auth_result}
use along.Service.Ceremonies.{
  Ceremony, Webauthn, WebauthnUser, CeremonyOptions, Credentials, ceremony_expired, or_expired,
  or_no_account, invalid_passkey_response, or_invalid_passkey, hydrate_user, clean_label, grant_of,
}

-- The ceremony of a login or of a further passkey, kept under a new challenge.
unfoldable pub begin_challenge :
    Webauthn → Env → ℕ → Option ℕ → String → Option Ceremony → Handler CeremonyOptions
begin_challenge lib env challenge_id account purpose begun = do
  ceremony ← or_other begun
  session ← or_other (lib.encode_session ceremony.session)
  call (create_challenge challenge_id account purpose session (env.now + lib.challenge_ttl))
  pure (record { challenge_id = challenge_id; public_key = ceremony.options })

unfoldable pub begin_login : Webauthn → Env → ℕ → Handler CeremonyOptions
unfolding begin_challenge
begin_login lib env challenge_id = begin_challenge lib env challenge_id none "login" lib.begin_login

-- The user that the handler of FinishLogin selects: one of whose passkeys the response names.
unfoldable pub select_user : Webauthn → List ℕ × ℕ → Handler WebauthnUser
unfolding hydrate_user
select_user lib (raw_id, handle) = do
  account ← call (get_webauthn_account_by_handle handle)
  user ← hydrate_user lib account
  guard (any (λ c. bytes_eq c.id raw_id) user.credentials) (invalid_passkey_response 401)
  pure user

-- Any error of the handler is one of FinishPasskeyLogin.
abbrev pub or_unknown_passkey : {A : Type 0} → Outcome A → Handler A
or_unknown_passkey (done a) = pure a
or_unknown_passkey (failed f) = fail (app (invalid_passkey_response 401))

unfoldable pub login_passkey :
    Libraries → Webauthn → Env → Credentials → Challenge → String → DeviceInfo → Handler AuthResult
unfolding select_user auth_result invalid_passkey_response
login_passkey libs lib env drawn challenge request device = do
  session ← or_other (lib.decode_session challenge.session_data)
  named ← or_invalid_passkey 401 (lib.asserted request)
  outcome ← attempt (select_user lib named)
  user ← or_unknown_passkey outcome
  credential ← or_invalid_passkey 401 (lib.verify_login user session request)
  encoded ← or_other (lib.encode_credential credential)
  new ← or_other drawn.token
  identity ← call (
      create_login_session env user.account.account.id credential.id encoded device
        (grant_of libs env drawn.session_id new))
  auth_result libs identity new.raw none

unfoldable pub finish_login :
    Libraries → Webauthn → Env → Credentials → ℕ → String → DeviceInfo → Handler AuthResult
unfolding login_passkey ceremony_expired
finish_login libs lib env drawn challenge_id request device = do
  outcome ← attempt (call (consume_challenge env challenge_id "login"))
  challenge ← or_expired "Start passkey sign-in again." outcome
  login_passkey libs lib env drawn challenge request device

unfoldable pub begin_add_passkey : Webauthn → Env → ℕ → ℕ → Handler CeremonyOptions
unfolding hydrate_user begin_challenge
begin_add_passkey lib env challenge_id account_id = do
  account ← call (get_webauthn_account_by_id account_id)
  user ← hydrate_user lib account
  begin_challenge lib env challenge_id (some account_id) "add_passkey" (lib.begin_registration user)

unfoldable pub finish_add_passkey : Webauthn → Env → ℕ → ℕ → String → String → Handler (Unit {0})
unfolding hydrate_user clean_label invalid_passkey_response ceremony_expired
finish_add_passkey lib env account_id challenge_id request label = do
  outcome ← attempt (call (consume_challenge env challenge_id "add_passkey"))
  challenge ← or_expired "Start passkey setup again." outcome
  owner ← or_no_account "Start passkey setup again." challenge.account_id
  guard (owner == account_id) (ceremony_expired "Start passkey setup again.")
  account ← call (get_webauthn_account_by_id account_id)
  user ← hydrate_user lib account
  session ← or_other (lib.decode_session challenge.session_data)
  credential ← or_invalid_passkey 400 (lib.finish_registration user session request)
  encoded ← or_other (lib.encode_credential credential)
  call (add_credential env account_id credential.id encoded (clean_label label))

-- DecodeCredentialID; base64.RawURLEncoding is a parameter.
unfoldable pub decode_credential_id : (String → Option (List ℕ)) → String → Option (List ℕ)
decode_credential_id base64 value = elim (base64 value) [
  | none ↦ none
  | some [] ↦ none
  | some (b ∷ bs) ↦ some (b ∷ bs)
]
