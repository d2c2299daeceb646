-- ===== src/Tests/Ceremonies.antt =====
-- Bea (2) sets up a passkey on her phone, in a run whose library takes any response, and a second
-- attempt with the same challenge; a registration whose session cannot be encoded.
use along.Prelude.{
  sort_by, select, ◌≡◌, refl, Bool, true, false, none, some, [], ◌∷◌, find, update, count, arith,
  trim_text, bytes_eq,
}
use along.Store.Schema.{Db}
use along.Store.Tx.{◌>>=◌}
use along.Store.Auth.Accounts.{
  get_webauthn_account, create_pending_account, insert_account, account_of, insert_credential,
  new_credential, get_account, account_with_pair, get_webauthn_account_by_id, credentials_of,
  is_open_account,
}
use along.Store.Auth.Challenges.{
  create_challenge, consume_challenge, is_usable, challenge_of, consume_row, is_purpose,
}
use along.Store.Auth.Logins.{
  activate_account, activate_row, create_session, upsert_install, is_device, insert_auth_session,
  insert_refresh, new_session, new_refresh, insert_codes, insert_code, identity_of,
}
use along.Http.Handler.{Outcome, done, failed, app, attempt, ◌>>=◌ as handler_then, OnFailure}
use along.Service.{AuthResult, auth_result}
use along.Service.Ceremonies.{
  Webauthn, Drawn, Credentials, CeremonyOptions, ceremony_expired, begin_account_registration,
  begin_for_account, finish_account_registration, register_passkey, hydrate_user, clean_label,
}
use along.Service.Ceremonies.Logins.{finish_login}
use along.Service.Ceremonies.Once.{finish_account_registration-once, finish_login-once}
use along.Service.Ceremonies.Cleanup.{begin_account_registration-Restored}
use along.Tests.Auth.{at, phone, signed_up}
use along.Tests.Service.{lib, drawn}

abbrev passkeys : Webauthn
passkeys = record {
  decode_credential = λ text. some (record { id = 8 ∷ []; content = text });
  encode_credential = λ passkey. some passkey.content;
  encode_session = λ session. some session;
  decode_session = λ text. some text;
  begin_registration = λ user. some (record { options = "options"; session = "challenge" });
  finish_registration = λ user session request. some (record { id = 8 ∷ []; content = "{}" });
  begin_login = some (record { options = "options"; session = "challenge" });
  asserted = λ request. some (8 ∷ [], 12);
  verify_login = λ user session request. some (record { id = 8 ∷ []; content = "{}" });
  challenge_ttl = 500;
}

abbrev bea : Drawn
bea = record {
  account_id = 2;
  user_handle = some 12;
  recovery_handle = some "BEA";
  challenge_id = 61;
}

abbrev credentials : Credentials
credentials = record {
  recovery = some ("c0" ∷ [], "k0" ∷ []);
  session_id = 72;
  token = some (drawn 94);
}

abbrev is_done : {A : Type 0} → Outcome A → Bool
is_done (done a) = true
is_done (failed f) = false

begun : Outcome CeremonyOptions × Db
unfolding signed_up begin_account_registration begin_for_account create_pending_account
    insert_account account_of create_challenge is_purpose trim_text handler_then attempt ◌>>=◌
begun = begin_account_registration passkeys (at 300) bea " Bea " signed_up

finished : Outcome AuthResult × Db
unfolding begun finish_account_registration register_passkey consume_challenge is_usable
    challenge_of consume_row find update count get_webauthn_account_by_id credentials_of account_of
    is_open_account get_webauthn_account sort_by select hydrate_user clean_label trim_text
    activate_account activate_row insert_credential new_credential insert_codes insert_code
    create_session upsert_install is_device insert_auth_session insert_refresh new_session
    new_refresh identity_of auth_result get_account account_with_pair bytes_eq handler_then attempt
    ◌>>=◌
finished =
    finish_account_registration lib passkeys (at 400) credentials 61 "response" phone "" begun.1

finishes : is_done finished.0 ≡ true
unfolding finished
finishes = refl

finish_account_registration-once_example :
    finish_account_registration lib passkeys (at 450) credentials 61 "response" phone "" finished.1
    ≡ (failed (app (ceremony_expired "Start the passkey setup again.")), finished.1)
unfolding finished
finish_account_registration-once_example =
    finish_account_registration-once lib lib passkeys passkeys (at 400) (at 450) credentials
      credentials 61 "response" "response" phone phone "" "" begun.1 (omega arith)

finish_login-once_example :
    let after = (finish_login lib passkeys (at 400) credentials 62 "response" phone begun.1).1 in
    finish_login lib passkeys (at 450) credentials 62 "response" phone after
    ≡ (failed (app (ceremony_expired "Start passkey sign-in again.")), after)
finish_login-once_example =
    finish_login-once lib lib passkeys passkeys (at 400) (at 450) credentials credentials 62
      "response" "response" phone phone begun.1 (omega arith)

abbrev broken : Webauthn
broken = record passkeys { encode_session = λ session. none }

begin_account_registration-Restored_example :
    OnFailure
      (λ d. d.accounts ≡ signed_up.accounts)
      (begin_account_registration broken (at 300) bea " Bea " signed_up)
begin_account_registration-Restored_example =
    begin_account_registration-Restored broken (at 300) bea " Bea " signed_up
