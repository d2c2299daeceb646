-- ===== src/Http/Pairs.antt =====
-- The handlers of pairs and of push devices in
-- server/internal/httpapi/collaboration_handlers.go. Base64, hex and SHA-256, the random token of an
-- invite and the cipher of a device token are arguments.
use Prim.Native.String.{◌++◌ as str_append}
use along.Prelude.{
  ℕ, ◌+◌, String, Bool, false, ◌||◌, Option, none, some, List, ◌==◌, length, str_eq, if◌then◌else◌,
}
use along.Domain.Models.{AuthIdentity, PairSummary}
use along.Store.Schema.{Env}
use along.Store.Pairing.{pair_query, create_pair_invite, accept_pair_invite}
use along.Store.Push.{register_push_device, revoke_push_device}
use along.Http.Handler.{
  AppError, new_error, err_validation, map_error, Outcome, done, failed, app, other, Handler, pure,
  fail, call, attempt, guard, ◌>>=◌, ◌>>◌,
}
use along.Http.Sessions.{Decoded, Reply, or_undecoded}

-- PairInvite
pub record PairInvite : Type 0 where
  pub id : ℕ
  pub url : String
  pub expires_at : ℕ

unfoldable pub get_pair_handler : AuthIdentity → Handler (Reply PairSummary)
get_pair_handler identity = do
  pair ← call (pair_query identity.account_id)
  pure (record { status = 200; replayed = false; value = pair })

-- What a library returned, or its error.
abbrev or_other : {A : Type 0} → Option A → Handler A
or_other none = fail other
or_other (some a) = pure a

-- `raw` is the encoded random token, if crypto/rand gave one, and `base_url` the public URL without
-- slashes at its end.
unfoldable pub create_pair_invite_handler :
    (String → ℕ)
    → Env
    → AuthIdentity
    → Decoded (Unit {0})
    → Option String
    → ℕ
    → String
    → Handler (Reply PairInvite)
create_pair_invite_handler sha256 env identity body random invite_ttl base_url = do
  empty ← or_undecoded body
  raw ← or_other random
  call (create_pair_invite env identity.account_id (env.uuid 9) (sha256 raw) (env.now + invite_ttl))
  pure (record {
    status = 201;
    replayed = false;
    value = record {
      id = env.uuid 9;
      url = str_append base_url (str_append "/join/" raw);
      expires_at = env.now + invite_ttl;
    };
  })

unfoldable pub invite_not_found : AppError
unfolding new_error
invite_not_found = new_error 404 "invite_not_found" "This pairing link is invalid or expired."

abbrev is_token : Option (List ℕ) → Bool
is_token none = false
is_token (some bytes) = length bytes == 32

-- The reply to what AcceptPairInvite returned.
unfoldable pub accept_reply : Outcome PairSummary → Handler (Reply PairSummary)
accept_reply (done pair) = pure (record { status = 201; replayed = false; value = pair })
accept_reply (failed f) =
    if (map_error f).status == 404 then fail (app invite_not_found) else fail f

unfoldable pub accept_pair_invite_handler :
    (String → ℕ)
    → (String → Option (List ℕ))
    → Env
    → AuthIdentity
    → Decoded String
    → Handler (Reply PairSummary)
unfolding invite_not_found accept_reply
accept_pair_invite_handler sha256 base64 env identity body = do
  token ← or_undecoded body
  guard (is_token (base64 token)) invite_not_found
  outcome ← attempt (call (accept_pair_invite env identity.account_id (sha256 token)))
  accept_reply outcome

-- The body of a registration, where `lower` is the token in lower case, without white space around
-- it.
pub record Registration : Type 0 where
  pub lower : String
  pub environment : String

unfoldable pub register_push_device_handler :
    (String → ℕ)
    → (String → Option (List ℕ))
    → (String → Option (List ℕ))
    → String
    → Env
    → AuthIdentity
    → Decoded Registration
    → Handler (Reply (Unit {0}))
register_push_device_handler sha256 hex encrypt topic env identity body = do
  r ← or_undecoded body
  guard (is_token (hex r.lower))
      (new_error 422 "invalid_push_token" "The APNs device token is invalid.")
  guard (str_eq r.environment "sandbox" || str_eq r.environment "production") err_validation
  cipher ← or_other (encrypt r.lower)
  call (
      register_push_device sha256 env identity.account_id identity.installation_id r.lower cipher
        r.environment topic)
  pure (record { status = 204; replayed = false; value = tt })

unfoldable pub revoke_push_device_handler : Env → AuthIdentity → Handler (Reply (Unit {0}))
revoke_push_device_handler env identity = do
  call (revoke_push_device env identity.account_id identity.installation_id)
  pure (record { status = 204; replayed = false; value = tt })
