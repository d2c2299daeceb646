-- ===== src/Config/Variables.antt =====
-- The readers of variables in server/internal/config/config.go: env, duration, integer, splitCSV,
-- envOrFile and secret.
use along.Prelude.{
  ℕ, String, text_append, Bool, not, ◌&&◌, Option, none, some, List, [], ◌∷◌, str_eq, codes,
  trim_text, split_text, ℤ, negsuc, if◌then◌else◌,
}
use along.Config.{
  Process, set_twice, unread_file, missing, invalid_base64, Checked, valid, invalid, ◌>>=◌,
  or_invalid,
}

-- env
unfoldable pub env : Process → String → String → String
env p name fallback =
    let value = trim_text (p.getenv name) in if not (str_eq value "") then value else fallback

abbrev or_minus_one : Option ℤ → ℤ
or_minus_one none = negsuc 0
or_minus_one (some z) = z

-- duration
unfoldable pub duration : Process → String → ℤ → ℤ
duration p name fallback =
    let value = trim_text (p.getenv name) in
    if str_eq value "" then fallback else or_minus_one (p.parse_duration value)

-- integer
unfoldable pub integer : Process → String → ℤ → ℤ
integer p name fallback =
    let value = trim_text (p.getenv name) in
    if str_eq value "" then fallback else or_minus_one (p.atoi value)

-- The loop of splitCSV.
items : List String → List String
items [] = []
items (item ∷ rest) =
    let values = items rest in
    if not (str_eq (trim_text item) "") then trim_text item ∷ values else values

unfoldable pub split_csv : String → List String
unfolding items
split_csv value = items (split_text b',' value)

abbrev trimmed : Checked String → Checked String
trimmed (valid text) = valid (trim_text text)
trimmed (invalid errors) = invalid errors

-- envOrFile
unfoldable pub env_or_file : Process → String → Checked String
env_or_file p name =
    let value = trim_text (p.getenv name) in
    let file = trim_text (p.getenv (text_append name "_FILE")) in
    if not (str_eq value "") && not (str_eq file "")
    then invalid (set_twice name ∷ [])
    else if str_eq file ""
    then valid value
    else trimmed (or_invalid (unread_file name) (p.read_file file))

-- The text that secret decodes.
unfoldable pub secret_text : Process → String → Bool → String → String → Checked String
secret_text p name allow_development development_value value =
    if not (str_eq value "")
    then valid value
    else if allow_development
    then valid (p.encode_base64 (codes development_value))
    else invalid (missing name ∷ [])

unfoldable pub secret : Process → String → Bool → String → Checked (List ℕ)
unfolding env_or_file secret_text
secret p name allow_development development_value = do
  value ← env_or_file p name
  text ← secret_text p name allow_development development_value value
  or_invalid (invalid_base64 name) (p.decode_base64 text)
