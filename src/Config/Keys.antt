-- ===== src/Config/Keys.antt =====
-- What a configuration that Load gives satisfies, and where its keys come from in production.
use along.Prelude.{
  ℕ, ◌≡◌, ◌≢◌, ◌∙◌, sym, refl, ap, subst, inl, inr, String, Bool, true, false, Option, none, some,
  List, [], ◌∷◌, str_eq, Bool-cases, arith,
}
use mathlib.Core.Bool.{true≢false}
use along.Config.{
  Process, Config, ConfigError, Checked, valid, invalid, invalid_base64, or_invalid, ◌>>=◌,
}
use along.Config.Variables.{env_or_file, secret, secret_text}
use along.Config.Validation.{in_production, validate_api}
use along.Config.Loading.{load, read_config, unless_errors}
use along.Config.Sound.{IsSound, validate_api-iff-IsSound, unequal}

-- The key is what the variable, or the file that it names, holds in base64.
pub record IsGiven (p : Process) (name : String) (key : List ℕ) : Type 0 where
  pub text : String
  pub given : text ≢ ""
  pub reads : env_or_file p name ≡ valid text
  pub decodes : p.decode_base64 text ≡ some key

>>=-valid :
    {A B : Type 0} (m : Checked A) (f : A → Checked B) (b : B)
    → (m >>= f) ≡ valid b
    → (a : A) × (m ≡ valid a) × (f a ≡ valid b)
>>=-valid (valid a) f b e = (a, refl, e)
>>=-valid (invalid errors) f b e = cc

valid_inj : {A : Type 0} (a b : A) → valid a ≡ valid b → a ≡ b
valid_inj a b e = cc

or_invalid-valid :
    {A : Type 0} (error : ConfigError) (o : Option A) (a : A)
    → or_invalid error o ≡ valid a
    → o ≡ some a
or_invalid-valid error none a e = cc
or_invalid-valid error (some x) a e = ap some (valid_inj x a e)

secret_text-given :
    (p : Process) (name development_value value text : String)
    → secret_text p name false development_value value ≡ valid text
    → (value ≢ "") × (value ≡ text)
unfolding secret_text
secret_text-given p name development_value value text e = elim (Bool-cases (str_eq value "")) [
  | inl empty ↦ absurd (true≢false (ground arith))
  | inr other ↦ ((unequal value "").0 other, valid_inj value text (ground arith))
]

secret-IsGiven :
    (p : Process) (name development_value : String) (allow : Bool) (key : List ℕ)
    → allow ≡ false
    → secret p name allow development_value ≡ valid key
    → IsGiven p name key
unfolding secret
secret-IsGiven p name development_value allow key off e =
    let (value, reads, e1) = >>=-valid (env_or_file p name) _ key e in
    let (text, chosen, e2) =
      >>=-valid (secret_text p name allow development_value value) _ key e1 in
    let (given, same) =
      secret_text-given p name development_value value text
        (ap (λ b. secret_text p name b development_value value) (sym off) ∙ chosen) in
    record {
      text = value;
      given = given;
      reads = reads;
      decodes = rw same (or_invalid-valid (invalid_base64 name) _ key e2);
    }

unless_errors-valid :
    (c c' : Config) (errors : List ConfigError)
    → unless_errors c errors ≡ valid c'
    → (errors ≡ []) × (c ≡ c')
unless_errors-valid c c' [] e = (refl, valid_inj c c' e)
unless_errors-valid c c' (error ∷ errors) e = cc

abbrev with_keys : Config → List ℕ → List ℕ → Config
with_keys c jwt push = record c { jwt_signing_key = jwt; push_encryption_key = push }

abbrev jwt_value : String
jwt_value = "along-development-jwt-key-change-me"

abbrev push_value : String
push_value = "along-dev-push-key-32-bytes-long"

-- A configuration that Load gives in production is sound, and its two keys are what the variables, or
-- the files that they name, hold in base64: neither is filled in from a development value.
pub load-IsGiven :
    (p : Process) (c : Config)
    → load p ≡ valid c
    → in_production c ≡ true
    → IsSound p c
      × IsGiven p "JWT_SIGNING_KEY" c.jwt_signing_key
      × IsGiven p "PUSH_ENCRYPTION_KEY" c.push_encryption_key
unfolding load
load-IsGiven p c e production =
    let (url, e_url, e1) = >>=-valid (env_or_file p "DATABASE_URL") _ c e in
    let allow = (read_config p url).allow_insecure_dev_keys in
    let (jwt, e_jwt, e2) = >>=-valid (secret p "JWT_SIGNING_KEY" allow jwt_value) _ c e1 in
    let (push, e_push, e3) = >>=-valid (secret p "PUSH_ENCRYPTION_KEY" allow push_value) _ c e2 in
    let (passed, same) =
      unless_errors-valid (with_keys (read_config p url) jwt push) c
        (validate_api p (with_keys (read_config p url) jwt push)) e3 in
    let sound : IsSound p c =
      (validate_api-iff-IsSound p c).0 (ap (validate_api p) (sym same) ∙ passed) in
    let secure : c.allow_insecure_dev_keys ≡ false = elim sound.no_dev_keys [
      | inl other ↦ absurd (true≢false (sym production ∙ other))
      | inr off ↦ off
    ] in
    let off : allow ≡ false = ap (λ x. x.allow_insecure_dev_keys) same ∙ secure in
    (
      sound,
      subst (IsGiven p "JWT_SIGNING_KEY") (ap (λ x. x.jwt_signing_key) same)
          (secret-IsGiven p "JWT_SIGNING_KEY" jwt_value allow jwt off e_jwt),
      subst (IsGiven p "PUSH_ENCRYPTION_KEY") (ap (λ x. x.push_encryption_key) same)
          (secret-IsGiven p "PUSH_ENCRYPTION_KEY" push_value allow push off e_push),
    )
