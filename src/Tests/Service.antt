-- ===== src/Tests/Service.antt =====
-- Ann presents the refresh token of her sign-up to the service, and presents it again.
use along.Prelude.{
  split_text, ℕ, ◌+◌, ◌≡◌, refl, true, none, some, List, [], ◌∷◌, find, update, count,
}
use along.Store.Schema.{Db}
use along.Store.Tx.{◌>>=◌}
use along.Store.Auth.Logins.{identity_of, insert_refresh, new_refresh}
use along.Store.Auth.Refresh.{rotate_refresh, present_refresh, renew, touch, is_unconsumed}
use along.Http.Handler.{Outcome, done, failed, app, attempt, ◌>>=◌ as handler_then}
use along.Store.Auth.Accounts.{get_account, account_with_pair}
use along.Service.{
  Libraries, OpaqueToken, AuthResult, refresh, refresh_with, refreshed, auth_result,
  parse_opaque_token, refresh_reuse_detected,
}
use along.Service.Reuse.{refresh-twice}
use along.Tests.Auth.{at, signed_up}

abbrev pub lib : Libraries
lib = record {
  parse_uuid = λ text. some 91;
  base64 = λ text. some thirty_two;
  sha256 = λ text. 901;
  verify_recovery_code = λ given stored. true;
  issue = λ identity. some ("access", 1000);
  access_ttl = 900000000;
  refresh_ttl = 100000;
}
  where
    four : List ℕ → List ℕ
    four bytes = 0 ∷ 0 ∷ 0 ∷ 0 ∷ bytes

    thirty_two : List ℕ
    thirty_two = four (four (four (four (four (four (four (four [])))))))

abbrev pub drawn : ℕ → OpaqueToken
drawn id = record { id = id; raw = "drawn"; hash = id + 810 }

refreshed_once : Outcome AuthResult × Db
unfolding signed_up rotate_refresh present_refresh renew touch is_unconsumed ◌>>=◌ find update count
    identity_of insert_refresh new_refresh refresh refresh_with refreshed auth_result
    parse_opaque_token split_text get_account account_with_pair attempt handler_then
refreshed_once = refresh lib (at 300) (some (drawn 92)) "91.secret" signed_up

abbrev result_of : Outcome AuthResult → AuthResult
result_of (done r) = r
result_of (failed f) = record {
  tokens = record { access_token = ""; expires_in = 0; expires_at = 0; refresh_token = "" };
  account = record {
    id = 0;
    display_name = "";
    recovery_handle = "";
    webauthn_user_id = 0;
    status = "";
    created_at = 0;
    pair_id = none;
    partner_name = "";
    credential_count = 0;
    installation_id = none;
  };
  recovery_kit = none;
}

refresh-twice_example :
    (refresh lib (at 400) (some (drawn 93)) "91.secret" refreshed_once.1).0
    ≡ failed (app refresh_reuse_detected)
unfolding refreshed_once
refresh-twice_example =
    refresh-twice lib (at 300) (at 400) (some (drawn 92)) (drawn 93) "91.secret" signed_up
      (result_of refreshed_once.0) refreshed_once.1 refl
