-- ===== src/Worker/Client.antt =====
-- Client.Send of server/internal/apns/client.go, with the provider token and apnsPayload. Signing by
-- ES256, the cipher of device tokens, JSON, url.PathEscape and HTTP/2 are parameters.
pub mod Laws
use along.Prelude.{
  ℕ, suc, ◌+◌, ◌*◌, ◌/◌, ◌%◌, ◌^◌, String, text_append, Bool, true, false, not, ◌&&◌, ◌||◌, Option,
  none, some, List, [], ◌∷◌, any, ltb, ◌==◌, str_eq, byte_length, ℤ, pos, negsuc, if◌then◌else◌,
}
use along.Domain.Models.{minute}
use along.Store.Schema.{Alert}
use along.Store.Push.{PushJob}
use along.Worker.{Answer}

-- tokenProvider, without its key. The empty text is no token.
pub record TokenProvider : Type 0 where
  pub team_id : String
  pub key_id : String
  pub token : String
  pub issued : ℕ

-- A request to APNs; its other headers are constants.
pub record Request : Type 0 where
  pub url : String
  pub authorization : String
  pub apns_topic : String
  pub payload : String

-- An answer: the reason in its body, if that is the JSON of an object, and the number in
-- Retry-After, if it is one that an int64 holds.
pub record HttpResponse : Type 0 where
  pub status : ℕ
  pub reason : Option String
  pub retry_after : Option ℤ

pub record Transport : Type 0 where
  -- The claims are the issuer and the time; the key id is in the token's header.
  pub sign : String → String → ℕ → Option String
  pub decrypt : List ℕ → Option (List ℕ)
  pub path_escape : List ℕ → String
  pub marshal : Alert → Option String
  pub do_request : Request → Option HttpResponse

-- What `get` makes of a token that was signed anew.
unfoldable pub renewed : TokenProvider → ℕ → Option String → Option String × TokenProvider
renewed p now none = (none, p)
renewed p now (some signed) = (some signed, record p { token = signed; issued = now })

-- tokenProvider.get
unfoldable pub get_token : Transport → ℕ → TokenProvider → Option String × TokenProvider
unfolding renewed
get_token t now p =
    if not (str_eq p.token "") && ltb now (p.issued + 50 * minute)
    then (some p.token, p)
    else renewed p now (t.sign p.team_id p.key_id now)

abbrev checked_size : Option String → Option String
checked_size none = none
checked_size (some encoded) = if ltb 4096 (byte_length encoded) then none else some encoded

-- apnsPayload; the payload of a job is stored as an alert.
unfoldable pub apns_payload : Transport → Alert → Option String
apns_payload t alert = checked_size (t.marshal alert)

-- The device token, unless it is empty or has one of the characters /?#.
unfoldable pub usable_token : List ℕ → Bool
usable_token [] = false
usable_token (c ∷ cs) = not (any (λ x. x == b'/' || x == b'?' || x == b'#') (c ∷ cs))

unfoldable pub host_of : String → String
host_of environment =
    if str_eq environment "production"
    then "https://api.push.apple.com"
    else "https://api.sandbox.push.apple.com"

unfoldable pub request_with : Transport → PushJob → List ℕ → String → String → Request
unfolding host_of
request_with t job device auth payload = record {
  url = text_append (host_of job.environment) (text_append "/3/device/" (t.path_escape device));
  authorization = text_append "bearer " auth;
  apns_topic = job.topic;
  payload = payload;
}

-- A time.Duration in nanoseconds is an int64: one that wraps to a negative number is as none.
abbrev wrapped_ns : ℕ → ℕ
wrapped_ns ns = if ltb ns (2 ^ 63) then ns else 0

-- time.Duration(seconds) * time.Second, which wraps, rounded up to microseconds.
abbrev pub seconds_of : Option ℤ → ℕ
seconds_of none = 0
seconds_of (some (pos n)) = (wrapped_ns (n * 1000000000 % 2 ^ 64) + 999) / 1000
seconds_of (some (negsuc n)) = 0

abbrev reason_of : Option String → String
reason_of none = ""
reason_of (some reason) = reason

-- Result
unfoldable pub answer_of : Option HttpResponse → Option Answer
answer_of none = none
answer_of (some r) = some (record {
  status_code = r.status;
  reason = reason_of r.reason;
  retry_after = seconds_of r.retry_after;
})

unfoldable pub with_payload :
    Transport → PushJob → List ℕ → Option String → Option String → Option Request
unfolding request_with
with_payload t job device (some auth) (some payload) = some (request_with t job device auth payload)
with_payload t job device _ _ = none

-- The request of Send, if it comes to one, and the provider after it.
unfoldable pub request_of :
    Transport → ℕ → TokenProvider → PushJob → Option (List ℕ) → Option Request × TokenProvider
unfolding get_token apns_payload with_payload usable_token
request_of t now p job none = (none, p)
request_of t now p job (some device) =
    let (auth, p') = get_token t now p in
    if usable_token device
    then (with_payload t job device auth (apns_payload t job.payload), p')
    else (none, p)

abbrev perform_request : Transport → Option Request → Option HttpResponse
perform_request t none = none
perform_request t (some r) = t.do_request r

-- Send
unfoldable pub send : Transport → ℕ → TokenProvider → PushJob → Option Answer × TokenProvider
unfolding request_of answer_of
send t now p job =
    let (request, p') = request_of t now p job (t.decrypt job.token_cipher) in
    (answer_of (perform_request t request), p')
