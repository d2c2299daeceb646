-- ===== src/Tests/Tokens.antt =====
-- An access token that is issued at 10 s for 600 s and read 100 s later, and a refresh token. The
-- library signs one set of claims; ids and bytes are printed as repeated letters.
use along.Prelude.{
  lacks, ℕ, zero, suc, ◌+◌, ◌*◌, ◌<◌, ◌≤◌, ◌≡◌, refl, ap, sym, ◌∙◌, String, text_append, Bool, true,
  false, ◌&&◌, none, some, List, [], ◌∷◌, ◌==◌, ltb, leb, str_eq, str_eq_iff, arith, if◌then◌else◌,
}
use Prim.Native.Char.{code}
use along.Domain.Models.{AuthIdentity, second}
use along.Service.{Libraries, OpaqueToken, parse_opaque_token}
use along.Service.Tokens.{Claims, ParserOptions, Jwt, TokenManager, issue, parse, new_opaque_token}
use along.Service.Tokens.Laws.{
  IsJwt, IsPrinted, parse-issue, parse-expired, parse_opaque_token-new_opaque_token,
}

-- n letters before a text.
letters : ℕ → String → String
letters zero s = s
letters (suc n) s = String.◌∷◌ "i" (letters n s)

print : ℕ → String
unfolding letters
print n = letters n ""

count_letters : String → ℕ
count_letters String.[] = 0
count_letters (String.◌∷◌ c s) = suc (count_letters s)

count-print : (n : ℕ) → count_letters (print n) ≡ n
unfolding print letters count_letters
count-print zero = refl
count-print (suc n) = ap suc (count-print n)

abbrev manager : TokenManager
manager = record { key = []; ttl = 600 * second }

abbrev ann : AuthIdentity
ann = record {
  account_id = 1;
  session_id = 3;
  installation_id = 2;
  pair_id = none;
  display_name = "";
}

abbrev claims : Claims
claims = record {
  session_id = "iii";
  installation_id = "ii";
  issuer = "along-server";
  subject = "i";
  audience = "along-mobile";
  expires_at = 610;
  not_before = 5;
  issued_at = 10;
  id = "t";
}

-- Whether these are the claims that the library signs.
abbrev is_signed : Claims → Bool
is_signed c =
    str_eq c.session_id "iii"
    && str_eq c.installation_id "ii"
    && str_eq c.issuer "along-server"
    && str_eq c.subject "i"
    && str_eq c.audience "along-mobile"
    && c.expires_at == 610
    && c.not_before == 5
    && c.issued_at == 10
    && str_eq c.id "t"

is_signed_sound : (c : Claims) → is_signed c ≡ true → c ≡ claims
is_signed_sound c h =
    let e1 : c.session_id ≡ "iii" = (str_eq_iff _ _).0 (ground arith) in
    let e2 : c.installation_id ≡ "ii" = (str_eq_iff _ _).0 (ground arith) in
    let e3 : c.issuer ≡ "along-server" = (str_eq_iff _ _).0 (ground arith) in
    let e4 : c.subject ≡ "i" = (str_eq_iff _ _).0 (ground arith) in
    let e5 : c.audience ≡ "along-mobile" = (str_eq_iff _ _).0 (ground arith) in
    let e6 : c.expires_at ≡ 610 = ground arith in
    let e7 : c.not_before ≡ 5 = ground arith in
    let e8 : c.issued_at ≡ 10 = ground arith in
    let e9 : c.id ≡ "t" = (str_eq_iff _ _).0 (ground arith) in
    λ i. record {
      session_id = e1 i;
      installation_id = e2 i;
      issuer = e3 i;
      subject = e4 i;
      audience = e5 i;
      expires_at = e6 i;
      not_before = e7 i;
      issued_at = e8 i;
      id = e9 i;
    }

abbrev in_time : ParserOptions → ℕ → Bool
in_time o now =
    str_eq "along-mobile" o.audience
    && str_eq "along-server" o.issuer
    && ltb now (610 * second + o.leeway)
    && leb (5 * second) (now + o.leeway)

abbrev jwt : Jwt
jwt = record {
  sign = λ key c. if is_signed c then some "token" else none;
  parse = λ o now key raw. if in_time o now then some claims else none;
  format_uuid = print;
  parse_uuid = λ text. some (count_letters text);
}

signs : (b : Bool) (raw : String) → (if b then some "token" else none) ≡ some raw → b ≡ true
signs true raw e = refl
signs false raw e = cc

is_in_time :
    (o : ParserOptions) (now : ℕ) (c : Claims)
    → c ≡ claims
    → c.audience ≡ o.audience
    → c.issuer ≡ o.issuer
    → now < c.expires_at * second + o.leeway
    → c.not_before * second ≤ now + o.leeway
    → in_time o now ≡ true
is_in_time o now c same audience issuer before after =
    let for_us : str_eq "along-mobile" o.audience ≡ true =
      (str_eq_iff _ _).1 (sym (ap (λ x. x.audience) same) ∙ audience) in
    let by_us : str_eq "along-server" o.issuer ≡ true =
      (str_eq_iff _ _).1 (sym (ap (λ x. x.issuer) same) ∙ issuer) in
    let last : c.expires_at ≡ 610 = ap (λ x. x.expires_at) same in
    let first : c.not_before ≡ 5 = ap (λ x. x.not_before) same in
    rw (for_us, by_us) (ground (arith, last, first))

is_late :
    (o : ParserOptions) (now : ℕ) (c : Claims)
    → c ≡ claims
    → c.expires_at * second + o.leeway ≤ now
    → in_time o now ≡ false
is_late o now c same late =
    let last : c.expires_at ≡ 610 = ap (λ x. x.expires_at) same in
    let over : ltb now (610 * second + o.leeway) ≡ false = ground (arith, last) in
    ground (arith, over)

jwt-IsJwt : IsJwt jwt
jwt-IsJwt = record {
  uuid = λ n. ap some (count-print n);
  verifies = λ o now key c raw e audience issuer before after.
      let same = is_signed_sound c (signs (is_signed c) raw e) in
      rw (is_in_time o now c same audience issuer before after, same) refl;
  expires = λ o now key c raw e late.
      let same = is_signed_sound c (signs (is_signed c) raw e) in
      rw (is_late o now c same late) refl;
}

parse-issue_example : parse jwt manager (110 * second) "token" ≡ some ann
unfolding issue print
parse-issue_example =
    parse-issue jwt jwt-IsJwt manager (10 * second) "t" ann "token" (610 * second) (110 * second)
      refl (omega arith) (omega arith)

parse-expired_example : parse jwt manager (620 * second) "token" ≡ none
unfolding issue print
parse-expired_example =
    parse-expired jwt jwt-IsJwt manager (10 * second) "t" ann "token" (610 * second) (620 * second)
      refl (omega arith)

-- Bytes, each as its number of letters before another letter.
unfoldable pub encode : List ℕ → String
unfolding letters
encode [] = ""
encode (n ∷ ns) = letters n (String.◌∷◌ "j" (encode ns))

unfoldable pub decode : ℕ → String → List ℕ
decode n String.[] = []
decode n (String.◌∷◌ c s) =
    let more = decode (suc n) s in
    let rest = decode 0 s in if code c == b'i' then more else n ∷ rest

plus_zero : (m : ℕ) → m ≡ m + 0
plus_zero m = omega arith

zero_plus : (n : ℕ) → 0 + n ≡ n
zero_plus n = omega arith

plus_suc : (m n : ℕ) → suc m + n ≡ m + suc n
plus_suc m n = omega arith

decode-letters :
    (m n : ℕ) (s : String) → decode m (letters n (String.◌∷◌ "j" s)) ≡ (m + n) ∷ decode 0 s
unfolding decode letters
decode-letters m zero s = ap (λ k. k ∷ decode 0 s) (plus_zero m)
decode-letters m (suc n) s = decode-letters (suc m) n s ∙ ap (λ k. k ∷ decode 0 s) (plus_suc m n)

pub decode-encode : (bytes : List ℕ) → decode 0 (encode bytes) ≡ bytes
unfolding encode
decode-encode [] = unfold decode in refl
decode-encode (n ∷ ns) =
    decode-letters 0 n (encode ns) ∙ rw (decode-encode ns) (ap (λ k. k ∷ ns) (zero_plus n))

lacks-letters :
    (c n : ℕ) (s : String) → (b'i' == c) ≡ false → lacks c s ≡ true → lacks c (letters n s) ≡ true
unfolding letters
lacks-letters c zero s other h = h
lacks-letters c (suc n) s other h = rw other (lacks-letters c n s other h)

pub lacks-encode :
    (c : ℕ) (bytes : List ℕ)
    → (b'i' == c) ≡ false
    → (b'j' == c) ≡ false
    → lacks c (encode bytes) ≡ true
unfolding encode
lacks-encode c [] other h = refl
lacks-encode c (n ∷ ns) other h =
    lacks-letters c n (String.◌∷◌ "j" (encode ns)) other (rw h (lacks-encode c ns other h))

abbrev printing : Libraries
printing = record {
  parse_uuid = λ text. some (count_letters text);
  base64 = λ text. some (decode 0 text);
  sha256 = λ text. count_letters text;
  verify_recovery_code = λ given stored. true;
  issue = λ identity. none;
  access_ttl = 0;
  refresh_ttl = 0;
}

printing-IsPrinted : IsPrinted printing print encode
unfolding print
printing-IsPrinted = record {
  uuid = λ n. ap some (count-print n);
  uuid_plain = λ n. lacks-letters b'.' n "" refl refl;
  base64 = λ bytes. ap some (decode-encode bytes);
  base64_plain = λ bytes. lacks-encode b'.' bytes refl refl;
}

abbrev thirty_two : List ℕ
thirty_two = four (four (four (four (four (four (four (four [])))))))
  where
    four : List ℕ → List ℕ
    four bytes = 1 ∷ 0 ∷ 2 ∷ 0 ∷ bytes

abbrev drawn : OpaqueToken
drawn = record {
  id = 2;
  raw = text_append (print 2) (text_append "." (encode thirty_two));
  hash = count_letters (text_append (print 2) (text_append "." (encode thirty_two)));
}

parse_opaque_token-new_opaque_token_example :
    parse_opaque_token printing drawn.raw ≡ some (drawn.id, drawn.hash)
unfolding new_opaque_token
parse_opaque_token-new_opaque_token_example =
    parse_opaque_token-new_opaque_token printing print encode printing-IsPrinted 2 thirty_two drawn
      refl refl
