-- ===== src/Http/RateLimit/Bounds.antt =====
-- How many requests of one client the rate limiter lets through.
use along.Prelude.{
  ℕ, suc, ◌+◌, ◌*◌, ◌≤◌, ◌<◌, ◌≡◌, refl, sym, subst, String, Bool, false, Option, none, some, List,
  [], ◌∷◌, find, count, All, find-holds, str_eq, str_eq_iff, if◌then◌else◌, arith, Bool-cases, inl,
  inr,
}
use along.Http.RateLimit.{
  new_rate_limiter, RateBucket, RateLimiter, has_key, open_bucket, put_bucket, allow,
}
use along.Http.RateLimit.Stock.{
  Distinct, remaining, counted-remaining, find-put_same, find-put_other, open_bucket-key,
  put_bucket-Distinct, sweep-Distinct, stock, sweep-remaining,
}

-- Requests, each with its client and its time: how many of those of `key` are let through.
unfoldable pub allowed : String → RateLimiter → List (String × ℕ) → ℕ
allowed key l [] = 0
allowed key l ((k, now) ∷ rest) =
    let (fine, l') = allow l k now in
    let later = allowed key l' rest in
    if str_eq k key then (if fine then suc later else later) else later

abbrev counted : RateLimiter → String → ℕ → RateBucket
counted l key now =
    let b = open_bucket l.interval key now (find (has_key key) l.buckets) in
    record b { count = suc b.count }

counted-key : (l : RateLimiter) (key : String) (now : ℕ) → (counted l key now).key ≡ key
counted-key l key now =
    open_bucket-key l.interval key now (find (has_key key) l.buckets)
      (find-holds (has_key key) l.buckets)

allow-Distinct :
    (l : RateLimiter) (key : String) (now : ℕ)
    → Distinct l.buckets
    → Distinct (allow l key now).1.buckets
unfolding allow
allow-Distinct l key now distinct =
    sweep-Distinct l.interval now _
      (put_bucket-Distinct key (counted l key now) l.buckets (counted-key l key now) distinct)

module _ (l : RateLimiter) (start now : ℕ) (low : start ≤ now) (high : now < start + l.interval)
    (distinct : Distinct l.buckets) where
  after_sweep :
      (key k : String)
      → stock start key (allow l k now).1
        ≤ remaining l.limit start (find (has_key key) (put_bucket k (counted l k now) l.buckets))
  unfolding allow
  after_sweep key k =
      sweep-remaining l.limit l.interval start now high key _
        (put_bucket-Distinct k (counted l k now) l.buckets (counted-key l k now) distinct)

  allow-same :
      (key : String)
      → (if (allow l key now).0 then 1 else 0) + stock start key (allow l key now).1
        ≤ stock start key l
  unfolding allow
  allow-same key =
      let swept : stock start key (allow l key now).1
          ≤ remaining l.limit start (some (counted l key now)) =
        subst (λ o. stock start key (allow l key now).1 ≤ remaining l.limit start o)
          (find-put_same key (counted l key now) l.buckets (counted-key l key now))
          (after_sweep key key) in
      let spent =
        counted-remaining l.limit l.interval start key now (find (has_key key) l.buckets) low
          high in
      omega arith

  allow-other :
      (key k : String)
      → str_eq k key ≡ false
      → stock start key (allow l k now).1 ≤ stock start key l
  allow-other key k differ =
      subst (λ o. stock start key (allow l k now).1 ≤ remaining l.limit start o)
        (find-put_other k key (counted l k now) l.buckets (counted-key l k now) differ distinct)
        (after_sweep key k)

  allow-step :
      (key k : String)
      → (if str_eq k key then (if (allow l k now).0 then 1 else 0) else 0)
          + stock start key (allow l k now).1
        ≤ stock start key l
  allow-step key k = elim (Bool-cases (str_eq k key)) [
    | inl same ↦ rw same (
        subst
          (λ name.
            (if (allow l k now).0 then 1 else 0) + stock start name (allow l k now).1
            ≤ stock start name l)
          ((str_eq_iff k key).0 same) (allow-same k))
    | inr differ ↦ rw differ (ground (arith, allow-other key k differ))
  ]

abbrev pub Within : ℕ → ℕ → String × ℕ → Type 0
Within start interval request = (start ≤ request.1) × (request.1 < start + interval)

allow-interval :
    (l : RateLimiter) (key : String) (now : ℕ) → (allow l key now).1.interval ≡ l.interval
unfolding allow
allow-interval l key now = refl

one_more :
    (same fine : Bool) (later stock' bound : ℕ)
    → later ≤ stock'
    → (if same then (if fine then 1 else 0) else 0) + stock' ≤ bound
    → (if same then (if fine then suc later else later) else later) ≤ bound
one_more same fine later stock' bound h k = ground arith

allowed_le_stock :
    (key : String) (start : ℕ) (requests : List (String × ℕ)) (l : RateLimiter)
    → All (Within start l.interval) requests
    → Distinct l.buckets
    → allowed key l requests ≤ stock start key l
unfolding allowed
allowed_le_stock key start [] l h distinct = omega arith
allowed_le_stock key start ((k, now) ∷ rest) l ((low, high), h) distinct =
    let within : All (Within start (allow l k now).1.interval) rest =
      subst (λ interval. All (Within start interval) rest) (sym (allow-interval l k now)) h in
    let later =
      allowed_le_stock key start rest (allow l k now).1 within (allow-Distinct l k now distinct) in
    one_more (str_eq k key) (allow l k now).0 _ _ _ later
      (allow-step l start now low high distinct key k)

stock_le_double : (start : ℕ) (key : String) (l : RateLimiter) → stock start key l ≤ 2 * l.limit
unfolding remaining
stock_le_double start key l = go (find (has_key key) l.buckets)
  where
    go : (o : Option RateBucket) → remaining l.limit start o ≤ 2 * l.limit
    go none = omega arith
    go (some b) = ground arith

-- The limiter after requests.
unfoldable pub serve : List (String × ℕ) → RateLimiter → RateLimiter
serve [] l = l
serve ((key, now) ∷ rest) l = serve rest (allow l key now).1

record IsServed (limit interval : ℕ) (l : RateLimiter) : Type 0 where
  limit_kept : l.limit ≡ limit
  interval_kept : l.interval ≡ interval
  distinct : Distinct l.buckets

serve-IsServed :
    (limit interval : ℕ) (requests : List (String × ℕ)) (l : RateLimiter)
    → IsServed limit interval l
    → IsServed limit interval (serve requests l)
unfolding serve
serve-IsServed limit interval [] l h = h
serve-IsServed limit interval ((key, now) ∷ rest) l h =
    serve-IsServed limit interval rest (allow l key now).1 (
      unfold allow in
      record {
        limit_kept = h.limit_kept;
        interval_kept = h.interval_kept;
        distinct = allow-Distinct l key now h.distinct;
      })

new-IsServed : (limit interval : ℕ) → IsServed limit interval (new_rate_limiter limit interval)
unfolding new_rate_limiter Distinct count
new-IsServed limit interval = record {
  limit_kept = refl;
  interval_kept = refl;
  distinct = λ key. omega arith;
}

-- Whatever requests came before, a span of time that is shorter than the interval sees at most
-- twice the limit of requests of one client let through, in whatever order the limiter meets them.
pub allowed_le_double :
    (limit interval start : ℕ) (key : String) (earlier requests : List (String × ℕ))
    → All (Within start interval) requests
    → allowed key (serve earlier (new_rate_limiter limit interval)) requests ≤ 2 * limit
allowed_le_double limit interval start key earlier requests within =
    let l = serve earlier (new_rate_limiter limit interval) in
    let h = serve-IsServed limit interval earlier _ (new-IsServed limit interval) in
    let bound =
      allowed_le_stock key start requests l
        (subst (λ i. All (Within start i) requests) (sym h.interval_kept) within) h.distinct in
    let double = stock_le_double start key l in ground (arith, h.limit_kept)
