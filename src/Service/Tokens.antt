-- ===== src/Service/Tokens.antt =====
-- TokenManager of server/internal/auth/token.go, and NewOpaqueToken. The library golang-jwt, the text
-- of a UUID and base64 are parameters; the dates of a token are whole seconds, and all other times
-- microseconds after 1970, by more than five seconds.
pub mod Laws
use along.Prelude.{ℕ, ◌+◌, ◌-◌, ◌*◌, ◌/◌, String, text_append, Option, none, some, List}
use along.Domain.Models.{AuthIdentity, second}
use along.Service.{OpaqueToken}

-- Claims
pub record Claims : Type 0 where
  pub session_id : String
  pub installation_id : String
  pub issuer : String
  pub subject : String
  pub audience : String
  pub expires_at : ℕ
  pub not_before : ℕ
  pub issued_at : ℕ
  pub id : String

-- What Parse asks of a token besides its signature by HS256, and that it has a date of expiry.
pub record ParserOptions : Type 0 where
  pub audience : String
  pub issuer : String
  pub leeway : ℕ

-- `sign` may fail; `parse` takes the time, the key and the text.
pub record Jwt : Type 0 where
  pub sign : List ℕ → Claims → Option String
  pub parse : ParserOptions → ℕ → List ℕ → String → Option Claims
  pub format_uuid : ℕ → String
  pub parse_uuid : String → Option ℕ

pub record TokenManager : Type 0 where
  pub key : List ℕ
  pub ttl : ℕ

abbrev pub options : ParserOptions
options = record { audience = "along-mobile"; issuer = "along-server"; leeway = 5 * second }

infixl 5 ◌>>=◌
abbrev pub ◌>>=◌ : {A B : Type 0} → Option A → (A → Option B) → Option B
none >>= f = none
some a >>= f = f a

-- The claims of Issue; `id` is drawn.
unfoldable pub claims_of : Jwt → TokenManager → ℕ → String → AuthIdentity → Claims
claims_of jwt m now id identity = record {
  session_id = jwt.format_uuid identity.session_id;
  installation_id = jwt.format_uuid identity.installation_id;
  issuer = "along-server";
  subject = jwt.format_uuid identity.account_id;
  audience = "along-mobile";
  expires_at = (now + m.ttl) / second;
  not_before = (now - 5 * second) / second;
  issued_at = now / second;
  id = id;
}

-- Issue
unfoldable pub issue : Jwt → TokenManager → ℕ → String → AuthIdentity → Option (String × ℕ)
unfolding claims_of
issue jwt m now id identity = do
  signed ← jwt.sign m.key (claims_of jwt m now id identity)
  some (signed, now + m.ttl)

unfoldable pub identity_in : Jwt → Claims → Option AuthIdentity
identity_in jwt claims = do
  account ← jwt.parse_uuid claims.subject
  session ← jwt.parse_uuid claims.session_id
  installation ← jwt.parse_uuid claims.installation_id
  some (record {
    account_id = account;
    session_id = session;
    installation_id = installation;
    pair_id = none;
    display_name = "";
  })

-- Parse
unfoldable pub parse : Jwt → TokenManager → ℕ → String → Option AuthIdentity
unfolding identity_in
parse jwt m now raw = do claims ← jwt.parse options now m.key raw; identity_in jwt claims

-- NewOpaqueToken, from the random bytes, where crypto/rand gave some.
unfoldable pub new_opaque_token :
    (ℕ → String) → (List ℕ → String) → (String → ℕ) → ℕ → Option (List ℕ) → Option OpaqueToken
new_opaque_token format_uuid encode sha256 id random = do
  secret ← random
  let raw = text_append (format_uuid id) (text_append "." (encode secret))
  some (record { id = id; raw = raw; hash = sha256 raw })
