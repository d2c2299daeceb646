-- ===== src/Config/Validation.antt =====
-- ValidateAPI and ValidateAPNS of server/internal/config/config.go.
use along.Prelude.{
  ◌*◌, String, Bool, true, false, not, ◌&&◌, ◌||◌, Option, none, some, List, [], ◌∷◌, ◌++◌, length,
  ltb, ◌==◌, str_eq, byte_length, at_least, at_most, if◌then◌else◌,
}
use along.Config.{
  Process, Config, Url, ConfigError, message, unparsed_url, invalid_origin, insecure_origin, minute,
  hour,
}

-- An error where the test holds.
unfoldable pub reject : Bool → ConfigError → List ConfigError
reject true error = error ∷ []
reject false error = []

unfoldable pub check_url : Option Url → List ConfigError
check_url none = unparsed_url ∷ []
check_url (some url) = []

unfoldable pub check_origin : Bool → String → Option Url → List ConfigError
unfolding reject
check_origin production origin none = invalid_origin origin ∷ []
check_origin production origin (some url) =
    if str_eq url.scheme "" || str_eq url.host ""
    then invalid_origin origin ∷ []
    else reject (production && not (str_eq url.scheme "https")) (insecure_origin origin)

-- The loop over the origins.
unfoldable pub check_origins : Process → Bool → List String → List ConfigError
unfolding check_origin
check_origins p production [] = []
check_origins p production (origin ∷ origins) =
    check_origin production origin (p.parse_url origin) ++ check_origins p production origins

-- The errors that errors.Join joins.
unfoldable pub joined : List (List ConfigError) → List ConfigError
joined [] = []
joined (errors ∷ rest) = errors ++ joined rest

abbrev pub in_production : Config → Bool
in_production c = str_eq c.environment "production"

unfoldable pub check_database : Process → String → List ConfigError
unfolding check_url
check_database p url =
    if str_eq url "" then message "DATABASE_URL is required" ∷ [] else check_url (p.parse_url url)

-- The checks of ValidateAPI, in its order.
unfoldable pub api_errors : Process → Config → List (List ConfigError)
unfolding reject check_database check_origins
api_errors p c =
    check_database p c.database_url
    ∷ reject (in_production c && c.allow_insecure_dev_keys)
        (message "insecure development keys are forbidden in production")
    ∷ reject (ltb (length c.jwt_signing_key) 32)
        (message "JWT_SIGNING_KEY must decode to at least 32 bytes")
    ∷ reject (not (length c.push_encryption_key == 32))
        (message "PUSH_ENCRYPTION_KEY must decode to exactly 32 bytes")
    ∷ reject (str_eq c.webauthn_rp_id "" || length c.webauthn_rp_origins == 0)
        (message "WebAuthn RP ID and at least one origin are required")
    ∷ reject (in_production c && not (byte_length c.apple_team_id == 10))
        (message "APPLE_TEAM_ID must be a 10-character Apple Team ID")
    ∷ check_origins p (in_production c) c.webauthn_rp_origins
    ∷ reject (at_most 0 c.access_token_ttl || not (at_most (15 * minute) c.access_token_ttl))
        (message "ACCESS_TOKEN_TTL must be between zero and 15 minutes")
    ∷ reject (not (at_least (24 * hour) c.refresh_token_ttl))
        (message "REFRESH_TOKEN_TTL must be at least 24 hours")
    ∷ reject (not (at_least 10 c.rate_limit_per_minute))
        (message "RATE_LIMIT_PER_MINUTE must be at least 10")
    ∷ []

-- ValidateAPI
unfoldable pub validate_api : Process → Config → List ConfigError
unfolding api_errors joined
validate_api p c = joined (api_errors p c)

-- ValidateAPNS
unfoldable pub validate_apns : Config → List ConfigError
unfolding reject joined
validate_apns c = joined (
    reject (str_eq c.apns_team_id "") (message "APNS_TEAM_ID is required")
    ∷ reject (str_eq c.apns_key_id "") (message "APNS_KEY_ID is required")
    ∷ reject (str_eq c.apns_topic "") (message "APNS_TOPIC is required")
    ∷ reject
        (not (str_eq c.apns_environment "sandbox") && not (str_eq c.apns_environment "production"))
        (message "APNS_ENVIRONMENT must be sandbox or production")
    ∷ reject (not (at_least 1 c.apns_batch_size) || not (at_most 500 c.apns_batch_size))
        (message "APNS_BATCH_SIZE must be between 1 and 500")
    ∷ [])
