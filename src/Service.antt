-- ===== src/Service.antt =====
-- The authentication service of server/internal/auth/service.go, and the refresh tokens of token.go:
-- refresh, recovery and new recovery codes. uuid.Parse, base64, SHA-256, Argon2 and the signing of
-- access tokens are parameters, and so is what crypto/rand gave, where it gave something.
pub mod Reuse
pub mod Ceremonies
pub mod Tokens
pub mod RecoveryCodes
use along.Prelude.{
  ℕ, ◌+◌, ◌/◌, String, Bool, false, Option, none, some, List, [], ◌∷◌, ◌==◌, length, find,
  split_text, if◌then◌else◌,
}
use along.Domain.Models.{Account, AuthIdentity, DeviceInfo, second}
use along.Store.Schema.{Env}
use along.Store.Auth.Accounts.{get_account}
use along.Store.Auth.Logins.{Grant}
use along.Store.Auth.Recovery.{
  RecoveryCode, recovery_codes, use_recovery_code, replace_recovery_codes,
}
use along.Store.Auth.Refresh.{Rotation, rotated, reused, rotate_refresh}
use along.Http.Handler.{
  AppError, new_error, err_unauthorized, Outcome, done, failed, app, other, Handler, pure, fail,
  call, attempt, ◌>>=◌, ◌>>◌,
}

-- The libraries, and the settings of the service.
pub record Libraries : Type 0 where
  pub parse_uuid : String → Option ℕ
  pub base64 : String → Option (List ℕ)
  pub sha256 : String → ℕ
  pub verify_recovery_code : String → String → Bool
  pub issue : AuthIdentity → Option (String × ℕ)
  pub access_ttl : ℕ
  pub refresh_ttl : ℕ

-- What NewOpaqueToken returns.
pub record OpaqueToken : Type 0 where
  pub id : ℕ
  pub raw : String
  pub hash : ℕ

abbrev is_secret : Option (List ℕ) → Bool
is_secret none = false
is_secret (some bytes) = length bytes == 32

abbrev with_id : Libraries → String → String → Option ℕ → Option (ℕ × ℕ)
with_id lib raw secret none = none
with_id lib raw secret (some id) =
    if is_secret (lib.base64 secret) then some (id, lib.sha256 raw) else none

abbrev of_parts : Libraries → String → List String → Option (ℕ × ℕ)
of_parts lib raw (id ∷ secret ∷ []) = with_id lib raw secret (lib.parse_uuid id)
of_parts lib raw _ = none

unfoldable pub parse_opaque_token : Libraries → String → Option (ℕ × ℕ)
parse_opaque_token lib raw = of_parts lib raw (split_text b'.' raw)

-- TokenPair; the type is always Bearer.
pub record TokenPair : Type 0 where
  pub access_token : String
  pub expires_in : ℕ
  pub expires_at : ℕ
  pub refresh_token : String

pub record RecoveryKit : Type 0 where
  pub account_id : ℕ
  pub recovery_handle : String
  pub codes : List String

pub record AuthResult : Type 0 where
  pub tokens : TokenPair
  pub account : Account
  pub recovery_kit : Option RecoveryKit

abbrev pub or_other : {A : Type 0} → Option A → Handler A
or_other none = fail other
or_other (some a) = pure a

unfoldable pub auth_result :
    Libraries → AuthIdentity → String → Option RecoveryKit → Handler AuthResult
auth_result lib identity refresh_raw kit = do
  access ← or_other (lib.issue identity)
  account ← call (get_account identity.account_id)
  pure (record {
    tokens = record {
      access_token = access.0;
      expires_in = lib.access_ttl / second;
      expires_at = access.1;
      refresh_token = refresh_raw;
    };
    account = record account { installation_id = some identity.installation_id };
    recovery_kit = kit;
  })

unfoldable pub refresh_reuse_detected : AppError
unfolding new_error
refresh_reuse_detected =
    new_error 401 "refresh_reuse_detected"
      "This session was revoked because a refresh token was reused."

-- What is made of the outcome of RotateRefresh.
unfoldable pub refreshed : Libraries → String → Outcome Rotation → Handler AuthResult
unfolding refresh_reuse_detected auth_result err_unauthorized
refreshed lib raw (done (rotated identity)) = auth_result lib identity raw none
refreshed lib raw (done reused) = fail (app refresh_reuse_detected)
refreshed lib raw (failed f) = fail (app err_unauthorized)

unfoldable pub refresh_with :
    Libraries → Env → Option OpaqueToken → Option (ℕ × ℕ) → Handler AuthResult
unfolding refreshed
refresh_with lib env random none = fail (app err_unauthorized)
refresh_with lib env random (some (old_id, old_hash)) = do
  new ← or_other random
  outcome ←
      attempt
        (call (rotate_refresh env old_id old_hash new.id new.hash (env.now + lib.refresh_ttl)))
  refreshed lib new.raw outcome

-- Refresh
unfoldable pub refresh : Libraries → Env → Option OpaqueToken → String → Handler AuthResult
unfolding refresh_with parse_opaque_token
refresh lib env random raw = refresh_with lib env random (parse_opaque_token lib raw)

unfoldable pub invalid_recovery : String → AppError
unfolding new_error
invalid_recovery message = new_error 401 "invalid_recovery" message

abbrev or_refused : {A : Type 0} → String → Outcome A → Handler A
or_refused message (done a) = pure a
or_refused message (failed f) = fail (app (invalid_recovery message))

abbrev or_invalid : {A : Type 0} → Option A → Handler A
or_invalid none = fail (app (invalid_recovery "The recovery details are not valid."))
or_invalid (some a) = pure a

-- Recover; `handle` is in upper case and without white space around it, and `session_id` is drawn.
unfoldable pub recover :
    Libraries → Env → Option OpaqueToken → ℕ → String → String → DeviceInfo → Handler AuthResult
unfolding invalid_recovery auth_result
recover lib env random session_id handle recovery_code device = do
  found ← attempt (call (recovery_codes handle))
  known ← or_refused "The recovery details are not valid." found
  chosen ← or_invalid (find (λ r. lib.verify_recovery_code recovery_code r.hash) known.1)
  new ← or_other random
  outcome ← attempt (
      call (
        use_recovery_code env known.0.id chosen.position device (record {
          auth_session_id = session_id;
          session_expires_at = env.now + lib.refresh_ttl;
          refresh_id = new.id;
          refresh_hash = new.hash;
          refresh_expires_at = env.now + lib.refresh_ttl;
        })))
  identity ← or_refused "The recovery code was already used." outcome
  auth_result lib identity new.raw none

-- RegenerateRecoveryCodes; `random` has the new codes with their hashes.
unfoldable pub regenerate_recovery_codes :
    Option (List String × List String) → ℕ → Handler RecoveryKit
regenerate_recovery_codes random account_id = do
  account ← call (get_account account_id)
  kit ← or_other random
  call (replace_recovery_codes account_id kit.1)
  pure
      (record { account_id = account_id; recovery_handle = account.recovery_handle; codes = kit.0 })
