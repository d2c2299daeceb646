-- ===== src/Config/Loading.antt =====
-- Load of server/internal/config/config.go.
use along.Prelude.{◌*◌, String, text_append, Bool, false, Option, none, some, List, [], ◌∷◌, pos}
use along.Config.{
  Process, Config, ConfigError, Checked, valid, invalid, ◌>>=◌, second, minute, hour,
}
use along.Config.Variables.{env, duration, integer, split_csv, env_or_file, secret}
use along.Config.Validation.{validate_api}

abbrev or_false : Option Bool → Bool
or_false none = false
or_false (some b) = b

-- The literal of Load, with its two Booleans. Load sets the two keys later.
unfoldable pub read_config : Process → String → Config
unfolding env duration integer split_csv
read_config p database_url =
    let domain = env p "ALONG_DOMAIN" "localhost" in
    let origin = text_append "https://" domain in
    record {
      environment = env p "ALONG_ENV" "development";
      domain = domain;
      http_address = env p "HTTP_ADDRESS" ":6009";
      database_url = database_url;
      public_base_url = env p "PUBLIC_BASE_URL" origin;
      webauthn_rp_id = env p "WEBAUTHN_RP_ID" domain;
      webauthn_rp_origins = split_csv (env p "WEBAUTHN_RP_ORIGINS" origin);
      jwt_signing_key = [];
      access_token_ttl = duration p "ACCESS_TOKEN_TTL" (pos (10 * minute));
      refresh_token_ttl = duration p "REFRESH_TOKEN_TTL" (pos (30 * 24 * hour));
      challenge_ttl = duration p "WEBAUTHN_CHALLENGE_TTL" (pos (5 * minute));
      invite_ttl = duration p "PAIR_INVITE_TTL" (pos (48 * hour));
      push_encryption_key = [];
      rate_limit_per_minute = integer p "RATE_LIMIT_PER_MINUTE" (pos 120);
      shutdown_timeout = duration p "SHUTDOWN_TIMEOUT" (pos (15 * second));
      readiness_timeout = duration p "READINESS_TIMEOUT" (pos (2 * second));
      git_commit = env p "GIT_COMMIT" "unknown";
      apple_team_id = env p "APPLE_TEAM_ID" "N7C8DEK852";
      android_signing_sha256 = split_csv (p.getenv "ANDROID_SIGNING_SHA256");
      apns_team_id = p.getenv "APNS_TEAM_ID";
      apns_key_id = p.getenv "APNS_KEY_ID";
      apns_key_path = env p "APNS_KEY_PATH" "/run/secrets/apns_key";
      apns_topic = env p "APNS_TOPIC" "com.joshspicer.along";
      apns_environment = env p "APNS_ENVIRONMENT" "sandbox";
      apns_poll_interval = duration p "APNS_POLL_INTERVAL" (pos (2 * second));
      apns_batch_size = integer p "APNS_BATCH_SIZE" (pos 50);
      allow_insecure_dev_keys = or_false (p.parse_bool (p.getenv "ALONG_ALLOW_INSECURE_DEV_KEYS"));
      trust_proxy_headers = or_false (p.parse_bool (p.getenv "TRUST_PROXY_HEADERS"));
    }

abbrev pub unless_errors : Config → List ConfigError → Checked Config
unless_errors c [] = valid c
unless_errors c (error ∷ errors) = invalid (error ∷ errors)

-- Load
unfoldable pub load : Process → Checked Config
unfolding read_config secret validate_api
load p = do
  database_url ← env_or_file p "DATABASE_URL"
  let read = read_config p database_url
  jwt_key ←
      secret p "JWT_SIGNING_KEY" read.allow_insecure_dev_keys "along-development-jwt-key-change-me"
  push_key ←
      secret p "PUSH_ENCRYPTION_KEY" read.allow_insecure_dev_keys "along-dev-push-key-32-bytes-long"
  let cfg = record read { jwt_signing_key = jwt_key; push_encryption_key = push_key }
  unless_errors cfg (validate_api p cfg)
