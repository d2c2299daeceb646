-- ===== src/Config.antt =====
-- The configuration of server/internal/config/config.go. The variables of the process, its files, and
-- the parsers of the standard library (ParseDuration, Atoi, ParseBool, url.Parse, base64) are
-- parameters. Durations are whole nanoseconds, and may be negative, as may other numbers.
pub mod Variables
pub mod Validation
pub mod Loading
pub mod Sound
pub mod Keys
use along.Prelude.{ℕ, String, Bool, Option, none, some, List, [], ◌∷◌, ◌*◌, ℤ}

-- What url.Parse gives.
pub record Url : Type 0 where
  pub scheme : String
  pub host : String

pub record Process : Type 0 where
  pub getenv : String → String
  pub read_file : String → Option String
  pub parse_duration : String → Option ℤ
  pub atoi : String → Option ℤ
  pub parse_bool : String → Option Bool
  pub parse_url : String → Option Url
  pub encode_base64 : List ℕ → String
  pub decode_base64 : String → Option (List ℕ)

-- Config
pub record Config : Type 0 where
  pub environment : String
  pub domain : String
  pub http_address : String
  pub database_url : String
  pub public_base_url : String
  pub webauthn_rp_id : String
  pub webauthn_rp_origins : List String
  pub jwt_signing_key : List ℕ
  pub access_token_ttl : ℤ
  pub refresh_token_ttl : ℤ
  pub challenge_ttl : ℤ
  pub invite_ttl : ℤ
  pub push_encryption_key : List ℕ
  pub rate_limit_per_minute : ℤ
  pub shutdown_timeout : ℤ
  pub readiness_timeout : ℤ
  pub git_commit : String
  pub apple_team_id : String
  pub android_signing_sha256 : List String
  pub apns_team_id : String
  pub apns_key_id : String
  pub apns_key_path : String
  pub apns_topic : String
  pub apns_environment : String
  pub apns_poll_interval : ℤ
  pub apns_batch_size : ℤ
  pub allow_insecure_dev_keys : Bool
  pub trust_proxy_headers : Bool

-- An error, by its text or by what its text is about.
pub data ConfigError : Type 0 where
  message : String → ConfigError
  unparsed_url : ConfigError
  invalid_origin : String → ConfigError
  insecure_origin : String → ConfigError
  set_twice : String → ConfigError
  unread_file : String → ConfigError
  missing : String → ConfigError
  invalid_base64 : String → ConfigError

-- The value, or the errors that errors.Join joins, one at least.
pub data Checked (A : Type 0) : Type 0 where
  valid : A → Checked A
  invalid : List ConfigError → Checked A

infixl 5 ◌>>=◌
abbrev pub ◌>>=◌ : {A B : Type 0} → Checked A → (A → Checked B) → Checked B
valid a >>= f = f a
invalid errors >>= f = invalid errors

abbrev pub second : ℕ
second = 1000000000

abbrev pub minute : ℕ
minute = 60 * second

abbrev pub hour : ℕ
hour = 60 * minute

abbrev pub or_invalid : {A : Type 0} → ConfigError → Option A → Checked A
or_invalid error none = invalid (error ∷ [])
or_invalid error (some a) = valid a
