-- ===== src/Service/Tokens/Laws.antt =====
-- Access tokens are parsed as they were issued, until they expire, and refresh tokens as they were
-- drawn.
use along.Prelude.{
  lacks, split_text-lacks, split_text-append, ℕ, ◌+◌, ◌-◌, ◌*◌, ◌/◌, ◌≡◌, ◌≤◌, ◌<◌, refl, subst,
  String, text_append, true, Option, none, some, List, [], ◌∷◌, length, split_text, arith,
}
use along.Domain.Models.{AuthIdentity, second}
use along.Service.{Libraries, OpaqueToken, parse_opaque_token}
use along.Service.Tokens.{
  Claims, ParserOptions, Jwt, TokenManager, options, claims_of, issue, identity_in, parse,
  new_opaque_token, ◌>>=◌,
}

-- What the documentation of golang-jwt and of uuid says: a signed token verifies under its key, for
-- its audience and its issuer, from its first to its last date, with the leeway, and not after it.
pub record IsJwt (jwt : Jwt) : Type 0 where
  pub uuid : (n : ℕ) → jwt.parse_uuid (jwt.format_uuid n) ≡ some n
  pub verifies :
      (o : ParserOptions) (now : ℕ) (key : List ℕ) (claims : Claims) (raw : String)
      → jwt.sign key claims ≡ some raw
      → claims.audience ≡ o.audience
      → claims.issuer ≡ o.issuer
      → now < claims.expires_at * second + o.leeway
      → claims.not_before * second ≤ now + o.leeway
      → jwt.parse o now key raw ≡ some claims
  pub expires :
      (o : ParserOptions) (now : ℕ) (key : List ℕ) (claims : Claims) (raw : String)
      → jwt.sign key claims ≡ some raw
      → claims.expires_at * second + o.leeway ≤ now
      → jwt.parse o now key raw ≡ none

some_inj : {A : Type 0} (a b : A) → some a ≡ some b → a ≡ b
some_inj a b e = cc

abbrev claimed : AuthIdentity → AuthIdentity
claimed identity = record identity { pair_id = none; display_name = "" }

>>=-some :
    {A B : Type 0} (o : Option A) (f : A → Option B) (b : B)
    → (o >>= f) ≡ some b
    → (a : A) × (o ≡ some a) × (f a ≡ some b)
>>=-some none f b e = cc
>>=-some (some a) f b e = (a, refl, e)

-- A date in whole seconds is at most a second before its time.
whole-above : (t later : ℕ) → later < t → later < t / 1000000 * 1000000 + 5000000
whole-above t later lt = omega arith

whole-below : (t : ℕ) → t / 1000000 * 1000000 ≤ t
whole-below t = omega arith

module _ (jwt : Jwt) (law : IsJwt jwt) (m : TokenManager) (now : ℕ) (id : String) where
  issue-signs :
      (identity : AuthIdentity) (raw : String) (expires : ℕ)
      → issue jwt m now id identity ≡ some (raw, expires)
      → (jwt.sign m.key (claims_of jwt m now id identity) ≡ some raw) × (now + m.ttl ≡ expires)
  unfolding issue
  issue-signs identity raw expires e =
      let (signed, at, same) =
        >>=-some (jwt.sign m.key (claims_of jwt m now id identity)) _ (raw, expires) e in
      (cc, cc)

  -- If golang-jwt and uuid do what they document, an access token is parsed, from when it was
  -- issued until it expires, as the account, the session and the installation that it was issued
  -- for.
  pub parse-issue :
      (identity : AuthIdentity) (raw : String) (expires later : ℕ)
      → issue jwt m now id identity ≡ some (raw, expires)
      → now ≤ later
      → later < expires
      → parse jwt m later raw ≡ some (claimed identity)
  unfolding parse identity_in claims_of
  parse-issue identity raw expires later e le lt =
      let (signed, at) = issue-signs identity raw expires e in
      let verified : jwt.parse options later m.key raw ≡ some (claims_of jwt m now id identity) =
        law.verifies options later m.key (claims_of jwt m now id identity) raw signed refl refl
          (whole-above (now + m.ttl) later (omega (arith, at)))
          (omega (arith, whole-below (now - 5 * second))) in
      rw
        (
          verified,
          law.uuid identity.account_id,
          law.uuid identity.session_id,
          law.uuid identity.installation_id,
        )
        refl

  -- If golang-jwt does what it documents, from five seconds after it expires on, an access token is
  -- refused.
  pub parse-expired :
      (identity : AuthIdentity) (raw : String) (expires later : ℕ)
      → issue jwt m now id identity ≡ some (raw, expires)
      → expires + 5 * second ≤ later
      → parse jwt m later raw ≡ none
  unfolding parse claims_of
  parse-expired identity raw expires later e late =
      let (signed, at) = issue-signs identity raw expires e in
      let refused : jwt.parse options later m.key raw ≡ none =
        law.expires options later m.key (claims_of jwt m now id identity) raw signed
          (omega (arith, at, whole-below (now + m.ttl))) in
      rw refused refl

-- What the documentation of uuid and base64 says of the two halves of a refresh token.
pub record IsPrinted (lib : Libraries) (format_uuid : ℕ → String) (encode : List ℕ → String)
    : Type 0 where
  pub uuid : (n : ℕ) → lib.parse_uuid (format_uuid n) ≡ some n
  pub uuid_plain : (n : ℕ) → lacks b'.' (format_uuid n) ≡ true
  pub base64 : (bytes : List ℕ) → lib.base64 (encode bytes) ≡ some bytes
  pub base64_plain : (bytes : List ℕ) → lacks b'.' (encode bytes) ≡ true

-- If uuid and base64 do what they document, a refresh token that was drawn from 32 random bytes is
-- parsed as its id and the hash of its text.
pub parse_opaque_token-new_opaque_token :
    (lib : Libraries) (format_uuid : ℕ → String) (encode : List ℕ → String)
    → IsPrinted lib format_uuid encode
    → (id : ℕ) (secret : List ℕ) (token : OpaqueToken) → length secret ≡ 32
    → new_opaque_token format_uuid encode lib.sha256 id (some secret) ≡ some token
    → parse_opaque_token lib token.raw ≡ some (token.id, token.hash)
unfolding new_opaque_token parse_opaque_token
parse_opaque_token-new_opaque_token lib format_uuid encode law id secret token long e =
    let split : split_text b'.' (text_append (format_uuid id) (text_append "." (encode secret)))
        ≡ format_uuid id ∷ encode secret ∷ [] =
      rw
        (
          split_text-append b'.' "." (format_uuid id) (encode secret) (law.uuid_plain id) refl,
          split_text-lacks b'.' (encode secret) (law.base64_plain secret),
        )
        refl in
    subst (λ t. parse_opaque_token lib t.raw ≡ some (t.id, t.hash)) (some_inj _ token e)
      (rw (split, law.uuid id, law.base64 secret, long) refl)
