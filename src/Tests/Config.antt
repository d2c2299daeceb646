-- ===== src/Tests/Config.antt =====
-- A process in production with its database and its two keys set, and all else left to the defaults.
use along.Prelude.{
  ◌≡◌, ◌↔◌, refl, String, none, some, [], str_eq, trim_text, split_text, codes, if◌then◌else◌,
}
use along.Config.{Process, Config, Checked, valid, invalid}
use along.Config.Variables.{env, duration, integer, split_csv, env_or_file, secret, secret_text}
use along.Config.Validation.{
  validate_api, api_errors, check_origin, check_origins, check_url, check_database, joined, reject,
}
use along.Config.Loading.{load, read_config}
use along.Config.Sound.{IsSound, validate_api-iff-IsSound}
use along.Config.Keys.{IsGiven, load-IsGiven}

abbrev variable : String → String
variable name =
    if str_eq name "ALONG_ENV"
    then "production"
    else if str_eq name "DATABASE_URL"
    then " postgres://database/along "
    else if str_eq name "JWT_SIGNING_KEY"
    then "key"
    else if str_eq name "PUSH_ENCRYPTION_KEY"
    then "key"
    else ""

abbrev process : Process
process = record {
  getenv = variable;
  read_file = λ file. none;
  parse_duration = λ text. none;
  atoi = λ text. none;
  parse_bool = λ text. none;
  parse_url = λ text. some (record { scheme = "https"; host = "localhost" });
  encode_base64 = λ bytes. "";
  decode_base64 = λ text. some (codes "0123456789abcdef0123456789abcdef");
}

abbrev config_in : Checked Config → Config → Config
config_in (valid c) other = c
config_in (invalid errors) other = other

loaded : Config
unfolding load read_config env duration integer split_csv env_or_file secret secret_text trim_text
    split_text validate_api api_errors check_origin check_origins check_url check_database joined
    reject
loaded = config_in (load process) (read_config process "")

loads : load process ≡ valid loaded
unfolding loaded
loads = refl

validate_api-iff-IsSound_example : (validate_api process loaded ≡ []) ↔ IsSound process loaded
validate_api-iff-IsSound_example = validate_api-iff-IsSound process loaded

load-IsGiven_example :
    IsSound process loaded
    × IsGiven process "JWT_SIGNING_KEY" loaded.jwt_signing_key
    × IsGiven process "PUSH_ENCRYPTION_KEY" loaded.push_encryption_key
unfolding loaded
load-IsGiven_example = load-IsGiven process loaded loads refl
