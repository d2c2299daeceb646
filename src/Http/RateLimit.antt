-- ===== src/Http/RateLimit.antt =====
-- The rate limiter of server/internal/httpapi/middleware.go. A map is a list of buckets with
-- different keys, and a time is a number of microseconds, which is never 0 when it is set.
pub mod Stock
pub mod Bounds
use along.Prelude.{
  ℕ, suc, ◌+◌, ◌*◌, String, Bool, Option, none, some, List, [], ◌∷◌, ltb, leb, length, find, delete,
  str_eq, if◌then◌else◌,
}

-- rateBucket, with its key
pub record RateBucket : Type 0 where
  pub key : String
  pub window : ℕ
  pub count : ℕ

pub record RateLimiter : Type 0 where
  pub buckets : List RateBucket
  pub limit : ℕ
  pub interval : ℕ

unfoldable pub new_rate_limiter : ℕ → ℕ → RateLimiter
new_rate_limiter limit interval = record { buckets = []; limit = limit; interval = interval }

abbrev pub has_key : String → RateBucket → Bool
has_key key b = str_eq b.key key

-- The bucket to count in: the stored one, or a new one if there is none or its window is over.
unfoldable pub open_bucket : ℕ → String → ℕ → Option RateBucket → RateBucket
open_bucket interval key now none = record { key = key; window = now; count = 0 }
open_bucket interval key now (some b) =
    if leb (b.window + interval) now then record { key = key; window = now; count = 0 } else b

-- l.buckets[key] = bucket
unfoldable pub put_bucket : String → RateBucket → List RateBucket → List RateBucket
put_bucket key b buckets = b ∷ delete (has_key key) buckets

-- The removal of old buckets, once there are more than 10,000.
unfoldable pub sweep : ℕ → ℕ → List RateBucket → List RateBucket
sweep interval now buckets =
    let kept = delete (λ b. ltb (b.window + 2 * interval) now) buckets in
    if ltb 10000 (length buckets) then kept else buckets

unfoldable pub allow : RateLimiter → String → ℕ → Bool × RateLimiter
unfolding open_bucket put_bucket sweep
allow l key now =
    let b = open_bucket l.interval key now (find (has_key key) l.buckets) in
    let counted : RateBucket = record b { count = suc b.count } in
    (
      leb counted.count l.limit,
      record l { buckets = sweep l.interval now (put_bucket key counted l.buckets) },
    )
