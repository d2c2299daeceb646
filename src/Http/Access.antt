-- ===== src/Http/Access.antt =====
-- Of server/internal/httpapi/middleware.go: authenticate, the client that the rate limiter counts,
-- rateLimitMiddleware, secureHeaders and diagnosticRequestPath.
pub mod Laws
use along.Prelude.{
  ℕ, String, text_append, Bool, true, false, not, ◌&&◌, ◌||◌, Option, none, some, List, [], ◌∷◌,
  ◌++◌, str_eq, trim_text, split_text, cut_text, is_lower, starts_with, if◌then◌else◌,
}
use along.Domain.Models.{AuthIdentity}
use along.Store.Schema.{Env}
use along.Store.Auth.Identity.{validate_auth_session}
use along.Http.Handler.{
  AppError, new_error, err_unauthorized, Outcome, done, failed, app, Handler, pure, fail, call,
  attempt, guard, ◌>>=◌, ◌>>◌,
}
use along.Http.RateLimit.{RateLimiter, allow}

abbrev or_unauthorized : {A : Type 0} → Option A → Handler A
or_unauthorized none = fail (app err_unauthorized)
or_unauthorized (some a) = pure a

abbrev or_refused : {A : Type 0} → Outcome A → Handler A
or_refused (done a) = pure a
or_refused (failed f) = fail (app err_unauthorized)

-- The token in the header Authorization, where its scheme is Bearer and it is not blank.
unfoldable pub bearer : Option (String × String) → Option String
bearer none = none
bearer (some (scheme, raw)) =
    if not (is_lower scheme "bearer") || str_eq (trim_text raw) ""
    then none
    else some (trim_text raw)

unfoldable pub bearer_token : String → Option String
unfolding bearer
bearer_token header = bearer (cut_text b' ' header)

-- authenticate, up to the identity that it puts in the context; `parse` is ParseAccessToken.
unfoldable pub authenticate : (String → Option AuthIdentity) → Env → String → Handler AuthIdentity
unfolding bearer_token
authenticate parse env header = do
  raw ← or_unauthorized (bearer_token header)
  claimed ← or_unauthorized (parse raw)
  outcome ← attempt (call (validate_auth_session env claimed))
  or_refused outcome

-- net.SplitHostPort and net.ParseIP, which says whether there is an address.
pub record Net : Type 0 where
  pub split_host_port : String → Option String
  pub is_ip : String → Bool

abbrev host_or : Option String → String → String
host_or none address = address
host_or (some host) address = host

abbrev first_of : List String → String
first_of [] = ""
first_of (x ∷ xs) = x

-- The client of a request, from its address and the header X-Forwarded-For.
unfoldable pub client_host : Net → Bool → String → String → String
client_host net trust_proxy_headers remote_address forwarded_for =
    let forwarded = trim_text (first_of (split_text b',' forwarded_for)) in
    if trust_proxy_headers && net.is_ip forwarded
    then forwarded
    else host_or (net.split_host_port remote_address) remote_address

unfoldable pub rate_limited : AppError
unfolding new_error
rate_limited = new_error 429 "rate_limited" "Wait a moment and try again."

-- rateLimitMiddleware: the error, if the request is not let through (with Retry-After: 60), and the
-- limiter after it.
unfoldable pub rate_limit :
    Net → Bool → RateLimiter → ℕ → String → String → Option AppError × RateLimiter
unfolding client_host rate_limited
rate_limit net trust_proxy_headers limiter now remote_address forwarded_for =
    let (allowed, after) =
      allow limiter (client_host net trust_proxy_headers remote_address forwarded_for) now in
    (if allowed then none else some rate_limited, after)

-- secureHeaders; `tls` is whether the request came over TLS.
unfoldable pub secure_headers : Bool → List (String × String)
secure_headers tls =
    ("Cache-Control", "no-store")
    ∷ ("Content-Security-Policy", "default-src 'none'; frame-ancestors 'none'")
    ∷ ("Permissions-Policy", "camera=(), microphone=(), geolocation=()")
    ∷ ("Referrer-Policy", "no-referrer")
    ∷ ("X-Content-Type-Options", "nosniff")
    ∷ ("X-Frame-Options", "DENY")
    ∷ (if tls
        then ("Strict-Transport-Security", "max-age=63072000; includeSubDomains") ∷ []
        else [])

-- diagnosticRequestPath
unfoldable pub diagnostic_request_path : String → String
diagnostic_request_path path =
    if starts_with path "/join/"
    then "/join/:id"
    else if starts_with path "/live/"
    then "/live/:id"
    else if starts_with path "/complete/"
    then "/complete/:id"
    else path
