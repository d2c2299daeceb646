-- ===== src/Worker/Retries.antt =====
-- How long a failed sending is put off, and how often it is tried.
use Prim.Native.String.{◌++◌ as str_append}
use native.Mathlib.Nat.{one-le-pow, pow-le-pow_right}
use along.Prelude.{
  ◌⊎◌, ℕ, ◌+◌, ◌*◌, ◌^◌, ◌≤◌, ◌<◌, ◌≡◌, refl, sym, ap, ==_iff, String, true, Option, none, some,
  List, [], ◌∷◌, ◌==◌, leb, ltb, find, update, is_some, length, if◌then◌else◌, arith, find-update,
  find-holds, Bool-cases, inl, inr, subst,
}
use along.Domain.Models.{second, hour}
use along.Store.Result.{ok}
use along.Store.Schema.{Db, Env, JobRow, PushDeviceRow}
use along.Store.Tx.{after}
use along.Store.Push.{push_job, is_job, retry_row, retry_push, fail_row, fail_push}
use along.Worker.{backoff, retry_delay, retry}

pow_bounds : (n : ℕ) → n ≤ 10 → (1 ≤ 2 ^ n) × (2 ^ n ≤ 1024)
pow_bounds n h =
    let low : 1 ≤ 2 ^ n = one-le-pow n 2 (omega arith) in
    let high : 2 ^ n ≤ 2 ^ 10 = pow-le-pow_right (omega arith) h in (low, omega arith)

-- A retry waits for more than no time, and for an hour at most.
pub retry_delay_bounds :
    (random : Option ℕ) (retry_after attempts : ℕ)
    → (0 < retry_delay random retry_after attempts)
      × (retry_delay random retry_after attempts ≤ hour)
unfolding retry_delay backoff
retry_delay_bounds none retry_after attempts =
    ground (arith, pow_bounds (if ltb 10 attempts then 10 else attempts))
retry_delay_bounds (some r) retry_after attempts =
    ground (arith, pow_bounds (if ltb 10 attempts then 10 else attempts))

-- Without Retry-After the wait grows with the attempts.
pub retry_delay-doubles :
    (random : Option ℕ) (attempts : ℕ)
    → attempts ≤ 10
    → second * 2 ^ attempts ≤ retry_delay random 0 attempts
unfolding retry_delay backoff
retry_delay-doubles none attempts h = ground (arith, pow_bounds attempts)
retry_delay-doubles (some r) attempts h = ground (arith, pow_bounds attempts)

-- The row after a sending that fails for the time being.
unfoldable pub next_row : Env → Option ℕ → String → ℕ → JobRow → JobRow
next_row env random reason retry_after j =
    if leb 10 j.attempts
    then fail_row env (str_append "retry_limit: " reason) j
    else retry_row (env.now + retry_delay random retry_after j.attempts) reason j

retry-row :
    (env : Env) (random : Option ℕ) (reason : String) (retry_after : ℕ) (db : Db) (j : JobRow)
    (d : PushDeviceRow)
    → retry env random (push_job (j, d)) reason retry_after db
      ≡ ok (
        tt,
        record db {
          notification_jobs =
              update
                (is_job j.id)
                (if leb 10 j.attempts
                  then fail_row env (str_append "retry_limit: " reason)
                  else retry_row (env.now + retry_delay random retry_after j.attempts) reason)
                db.notification_jobs;
        },
      )
unfolding retry push_job fail_push retry_push
retry-row env random reason retry_after db j d = elim (Bool-cases (leb 10 j.attempts)) [
  | inl last ↦ rw last refl
  | inr more ↦ rw more refl
]

-- A sending of a job that fails for the time being.
pub record Failure : Type 0 where
  pub env : Env
  pub random : Option ℕ
  pub reason : String
  pub retry_after : ℕ

-- The job is claimed as it stands, for the device `d`, and the sending fails.
unfoldable pub fail_once : ℕ → PushDeviceRow → Failure → Db → Db
fail_once id d f db = elim (find (is_job id) db.notification_jobs) [
  | none ↦ db
  | some j ↦ after (retry f.env f.random (push_job (j, d)) f.reason f.retry_after) db
]

unfoldable pub fail_each : ℕ → PushDeviceRow → List Failure → Db → Db
unfolding fail_once
fail_each id d [] db = db
fail_each id d (f ∷ fs) db = fail_each id d fs (fail_once id d f db)

updated-row :
    (id : ℕ) (f : JobRow → JobRow) (rows : List JobRow) (j : JobRow)
    → ((x : JobRow) → (f x).id ≡ x.id)
    → find (is_job id) rows ≡ some j
    → find (is_job id) (update (is_job j.id) f rows) ≡ some (f j)
updated-row id f rows j keep e =
    let same : j.id ≡ id = (==_iff j.id id).0 (find-holds (is_job id) rows j e) in
    subst (λ i. find (is_job id) (update (is_job i) f rows) ≡ some (f j)) (sym same)
      (find-update (is_job id) f (λ x. ap (λ i. i == id) (keep x)) rows j e)

fail_once-row :
    (id : ℕ) (d : PushDeviceRow) (f : Failure) (db : Db) (j : JobRow)
    → find (is_job id) db.notification_jobs ≡ some j
    → find (is_job id) (fail_once id d f db).notification_jobs
      ≡ some (next_row f.env f.random f.reason f.retry_after j)
unfolding fail_once next_row retry_row fail_row
fail_once-row id d f db j e =
    rw (e, fail_once)
      (rw (retry-row f.env f.random f.reason f.retry_after db j d, after)
        (elim (Bool-cases (leb 10 j.attempts)) [
          | inl last ↦ rw last (
              updated-row id (fail_row f.env (str_append "retry_limit: " f.reason))
                db.notification_jobs j (λ x. refl) e)
          | inr more ↦ rw more (
              updated-row id
                (retry_row (f.env.now + retry_delay f.random f.retry_after j.attempts) f.reason)
                db.notification_jobs j (λ x. refl) e)
        ]))

-- The job has failed for good, or the failures to come are enough for that.
Doomed : List Failure → JobRow → Type 0
Doomed fs j = (is_some j.failed_at ≡ true) ⊎ ((j.attempts ≤ 10) × (11 ≤ j.attempts + length fs))

next_row-Doomed :
    (f : Failure) (fs : List Failure) (j : JobRow)
    → Doomed (f ∷ fs) j
    → Doomed fs (next_row f.env f.random f.reason f.retry_after j)
unfolding Doomed next_row fail_row retry_row
next_row-Doomed f fs j (inl failed) = inl (ground arith)
next_row-Doomed f fs j (inr (few, enough)) = elim (Bool-cases (leb 10 j.attempts)) [
  | inl last ↦ inl (rw last refl)
  | inr more ↦ inr (ground arith, ground arith)
]

Doomed-now : (j : JobRow) → Doomed [] j → is_some j.failed_at ≡ true
unfolding Doomed
Doomed-now j (inl failed) = failed
Doomed-now j (inr (few, enough)) = absurd (omega arith)

fail_each-Doomed :
    (id : ℕ) (d : PushDeviceRow) (fs : List Failure) (db : Db) (j : JobRow)
    → find (is_job id) db.notification_jobs ≡ some j
    → Doomed fs j
    → (j' : JobRow) × (find (is_job id) (fail_each id d fs db).notification_jobs ≡ some j')
      × (is_some j'.failed_at ≡ true)
unfolding fail_each
fail_each-Doomed id d [] db j e h = (j, e, Doomed-now j h)
fail_each-Doomed id d (f ∷ fs) db j e h =
    fail_each-Doomed id d fs (fail_once id d f db)
      (next_row f.env f.random f.reason f.retry_after j) (fail_once-row id d f db j e)
      (next_row-Doomed f fs j h)

-- A job that was tried ten times at most, and whose sendings keep failing, is failed for good when
-- its attempts reach eleven.
pub fail_each-gives_up :
    (id : ℕ) (d : PushDeviceRow) (fs : List Failure) (db : Db) (j : JobRow)
    → find (is_job id) db.notification_jobs ≡ some j
    → j.attempts ≤ 10
    → 11 ≤ j.attempts + length fs
    → (j' : JobRow) × (find (is_job id) (fail_each id d fs db).notification_jobs ≡ some j')
      × (is_some j'.failed_at ≡ true)
unfolding Doomed
fail_each-gives_up id d fs db j e few enough = fail_each-Doomed id d fs db j e (inr (few, enough))
