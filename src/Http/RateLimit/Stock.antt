-- ===== src/Http/RateLimit/Stock.antt =====
-- The stock of requests that the limiter still lets through, and what its map operations do to it.
use along.Prelude.{
  ℕ, suc, ◌+◌, ◌-◌, ◌*◌, ◌≤◌, ◌<◌, ◌≡◌, refl, ◌∙◌, String, Bool, true, false, Option, none, some,
  List, [], ◌∷◌, ltb, leb, find, delete, count, find-holds, str_eq, str_eq_iff, if◌then◌else◌,
  arith, Bool-cases, inl, inr, length,
}
use along.Http.RateLimit.{RateBucket, RateLimiter, has_key, open_bucket, put_bucket, sweep}

-- No key has two buckets.
unfoldable pub Distinct : List RateBucket → Type 0
Distinct buckets = (key : String) → count (has_key key) buckets ≤ 1

module _ {A : Type 0} where
  count-delete_le : (q p : A → Bool) (xs : List A) → count q (delete p xs) ≤ count q xs
  unfolding count delete
  count-delete_le q p [] = omega arith
  count-delete_le q p (x ∷ xs) = ground (arith, count-delete_le q p xs)

  count-delete_self : (p : A → Bool) (xs : List A) → count p (delete p xs) ≡ 0
  unfolding count delete
  count-delete_self p [] = refl
  count-delete_self p (x ∷ xs) = ground (arith, count-delete_self p xs)

  find-count_zero : (p : A → Bool) (xs : List A) → count p xs ≡ 0 → find p xs ≡ none
  unfolding count find
  find-count_zero p [] h = refl
  find-count_zero p (x ∷ xs) h = ground (arith, find-count_zero p xs)

  surviving : (A → Bool) → Option A → Option A
  surviving p none = none
  surviving p (some x) = if p x then none else some x

  -- What a lookup finds after a deletion, where it had at most one row to find.
  find-delete :
      (q p : A → Bool) (xs : List A)
      → count q xs ≤ 1
      → find q (delete p xs) ≡ surviving p (find q xs)
  unfolding count find delete surviving
  find-delete q p [] h = refl
  find-delete q p (x ∷ xs) h =
      ground (arith, find-delete q p xs, find-count_zero q (delete p xs), count-delete_le q p xs)

-- How many more requests of a client can be let through before `start + interval`, where none is
-- made before `start`.
unfoldable pub remaining : ℕ → ℕ → Option RateBucket → ℕ
remaining limit start none = limit
remaining limit start (some b) =
    if leb start b.window then limit - b.count else limit + (limit - b.count)

module _ (limit interval start : ℕ) where
  pub counted-remaining :
      (key : String) (now : ℕ) (o : Option RateBucket)
      → start ≤ now
      → now < start + interval
      → (let b = open_bucket interval key now o in
          (if leb (suc b.count) limit then 1 else 0)
          + remaining limit start (some (record b { count = suc b.count })))
        ≤ remaining limit start o
  unfolding remaining open_bucket
  counted-remaining key now none low high = ground arith
  counted-remaining key now (some b) low high = ground arith

  swept-remaining :
      (now : ℕ) (o : Option RateBucket)
      → now < start + interval
      → remaining limit start (surviving (λ b. ltb (b.window + 2 * interval) now) o)
        ≤ remaining limit start o
  unfolding remaining surviving
  swept-remaining now none high = omega arith
  swept-remaining now (some b) high = ground arith

pub put_bucket-Distinct :
    (key : String) (b : RateBucket) (buckets : List RateBucket)
    → b.key ≡ key
    → Distinct buckets
    → Distinct (put_bucket key b buckets)
unfolding put_bucket Distinct count
put_bucket-Distinct key b buckets same distinct other = ground (
  arith,
  distinct other,
  count-delete_le (has_key other) (has_key key) buckets,
  count-delete_self (has_key key) buckets,
  str_eq_iff b.key other,
)

pub sweep-Distinct :
    (interval now : ℕ) (buckets : List RateBucket)
    → Distinct buckets
    → Distinct (sweep interval now buckets)
unfolding sweep Distinct
sweep-Distinct interval now buckets distinct key = ground (
  arith,
  distinct key,
  count-delete_le (has_key key) (λ b. ltb (b.window + 2 * interval) now) buckets,
)

pub find-put_same :
    (key : String) (b : RateBucket) (buckets : List RateBucket)
    → b.key ≡ key
    → find (has_key key) (put_bucket key b buckets) ≡ some b
unfolding find put_bucket
find-put_same key b buckets same = ground (arith, str_eq_iff b.key key)

kept_other :
    (key other : String) (o : Option RateBucket)
    → ((b : RateBucket) → o ≡ some b → has_key other b ≡ true)
    → str_eq key other ≡ false
    → surviving (has_key key) o ≡ o
unfolding surviving
kept_other key other none found differ = refl
kept_other key other (some b) found differ =
    ground (arith, found b refl, str_eq_iff b.key key, str_eq_iff b.key other, str_eq_iff key other)

pub find-put_other :
    (key other : String) (b : RateBucket) (buckets : List RateBucket)
    → b.key ≡ key
    → str_eq key other ≡ false
    → Distinct buckets
    → find (has_key other) (put_bucket key b buckets) ≡ find (has_key other) buckets
unfolding find put_bucket Distinct
find-put_other key other b buckets same differ distinct =
    rw (same, differ)
      (find-delete (has_key other) (has_key key) buckets (distinct other)
        ∙ kept_other key other (find (has_key other) buckets) (find-holds (has_key other) buckets)
            differ)

pub open_bucket-key :
    (interval : ℕ) (key : String) (now : ℕ) (o : Option RateBucket)
    → ((b : RateBucket) → o ≡ some b → has_key key b ≡ true)
    → (open_bucket interval key now o).key ≡ key
unfolding open_bucket
open_bucket-key interval key now none found = refl
open_bucket-key interval key now (some b) found = ground (arith, found b refl, str_eq_iff b.key key)

abbrev pub stock : ℕ → String → RateLimiter → ℕ
stock start key l = remaining l.limit start (find (has_key key) l.buckets)

module _ (limit interval start now : ℕ) (high : now < start + interval) where
  pub sweep-remaining :
      (key : String) (buckets : List RateBucket)
      → Distinct buckets
      → remaining limit start (find (has_key key) (sweep interval now buckets))
        ≤ remaining limit start (find (has_key key) buckets)
  unfolding sweep Distinct
  sweep-remaining key buckets distinct = elim (Bool-cases (ltb 10000 (length buckets))) [
    | inl many ↦
        rw
          (
            many,
            find-delete (has_key key) (λ b. ltb (b.window + 2 * interval) now) buckets
                (distinct key),
          )
          (swept-remaining limit interval start now (find (has_key key) buckets) high)
    | inr few ↦ rw few (omega arith)
  ]
