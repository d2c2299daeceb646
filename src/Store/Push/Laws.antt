-- ===== src/Store/Push/Laws.antt =====
-- Which jobs a claim returns after another claim, a revocation or a settled job.
use along.Prelude.{
  ℕ, ◌+◌, ◌*◌, ◌≡◌, ◌≤◌, ◌∙◌, refl, true, false, Option, none, some, List, [], ◌∷◌, map, ◌==◌, any,
  update, take, sort_by, is_none, All, All-take, All-sort_by, All-map, All-of, All-find,
  All-update_cases, find-holds, ◌⊎◌, Bool-cases, inl, inr, arith, subst, String,
}
use along.Domain.Models.{second}
use along.Store.Result.{ok}
use along.Store.Schema.{Db, Env, JobRow, PushDeviceRow}
use along.Store.Tx.{◌>>=◌, Post}
use along.Store.Push.{
  PushJob, is_ready, device_of, claimable, is_claimed, lock_job, push_job, claim_push_jobs, older,
  revoke_device, revoke_push_token, mark_push_sent, fail_push, is_job, sent_row, fail_row,
}

module _ (P : JobRow × PushDeviceRow → Type 0) where
  cons-found-All :
      (j : JobRow) (found : Option PushDeviceRow) (rest : List (JobRow × PushDeviceRow))
      → ((d : PushDeviceRow) → found ≡ some d → P (j, d))
      → All P rest
      → All P (elim found [ none ↦ rest | some d ↦ (j, d) ∷ rest ])
  cons-found-All j none rest h k = k
  cons-found-All j (some d) rest h k = (h d refl, k)

  -- What each ready job with a device satisfies holds of every claimable row.
  claimable-All :
      (env : Env) (devices : List PushDeviceRow) (js : List JobRow)
      → All
          (λ j.
            (d : PushDeviceRow) → is_ready env j ≡ true → device_of devices j ≡ some d → P (j, d))
          js
      → All P (claimable env devices js)
  unfolding claimable
  claimable-All env devices [] h = tt
  claimable-All env devices (j ∷ js) h = elim (Bool-cases (is_ready env j)) [
    | inl ready ↦ rw ready (
        cons-found-All j (device_of devices j) (claimable env devices js) (λ d. h.0 d ready)
          (claimable-All env devices js h.1))
    | inr not_ready ↦ rw not_ready (claimable-All env devices js h.1)
  ]

-- What each ready job with a device satisfies holds of every job that a claim returns.
claim_push_jobs-All :
    (P : PushJob → Type 0) (env : Env) (limit lock_for : ℕ) (db : Db)
    → All
        (λ j.
          (d : PushDeviceRow)
          → is_ready env j ≡ true
          → device_of db.push_devices j ≡ some d
          → P (push_job (j, d)))
        db.notification_jobs
    → Post (λ jobs db'. All P jobs) (claim_push_jobs env limit lock_for db)
unfolding claim_push_jobs ◌>>=◌
claim_push_jobs-All P env limit lock_for db h =
    All-map P push_job (take limit (sort_by older rows)) (
      All-take _ limit (sort_by older rows)
        (All-sort_by _ older rows (claimable-All _ env db.push_devices db.notification_jobs h)))
  where
    rows : List (JobRow × PushDeviceRow)
    rows = claimable env db.push_devices db.notification_jobs

any-push_job :
    (id : ℕ) (claimed : List (JobRow × PushDeviceRow))
    → any (λ i. i.id == id) (map push_job claimed) ≡ any (λ c. c.0.id == id) claimed
unfolding push_job
any-push_job id [] = refl
any-push_job id (c ∷ cs) = ground (arith, any-push_job id cs)

Apart : List PushJob → List PushJob → Type 0
Apart jobs jobs' = All (λ j. any (λ i. i.id == j.id) jobs ≡ false) jobs'

-- A job that a claim has locked is not ready until the lock is over.
locked_job-waits :
    (env later : Env) (lock_for : ℕ) (j : JobRow)
    → later.clock ≤ env.clock + lock_for * second
    → is_ready later (lock_job env lock_for j) ≡ false
unfolding is_ready lock_job
locked_job-waits env later lock_for j le = ground arith

claim_twice :
    (env later : Env) (limit lock_for limit' lock_for' : ℕ) (db : Db)
    → later.clock ≤ env.clock + lock_for * second
    → Post
        (λ jobs db'.
          Post (λ jobs' _. Apart jobs jobs') (claim_push_jobs later limit' lock_for' db'))
        (claim_push_jobs env limit lock_for db)
unfolding claim_push_jobs ◌>>=◌ Apart push_job
claim_twice env later limit lock_for limit' lock_for' db le =
    claim_push_jobs-All (λ j. any (λ i. i.id == j.id) (map push_job claimed) ≡ false) later limit'
      lock_for' locked
      (All-update_cases _ (is_claimed claimed) (lock_job env lock_for)
        (λ j hit d ready found. cc (ready, locked_job-waits env later lock_for j le))
        (λ j miss d ready found. any-push_job j.id claimed ∙ miss) db.notification_jobs)
  where
    claimed : List (JobRow × PushDeviceRow)
    claimed = take limit (sort_by older (claimable env db.push_devices db.notification_jobs))

    locked : Db
    locked = record db {
      notification_jobs = update (is_claimed claimed) (lock_job env lock_for) db.notification_jobs;
    }

-- Two claims, the second while the locks of the first still hold, return no job in common.
pub claim_push_jobs-exclusive :
    (env later : Env) (limit lock_for limit' lock_for' : ℕ) (db db' db'' : Db)
    (jobs jobs' : List PushJob)
    → claim_push_jobs env limit lock_for db ≡ ok (jobs, db')
    → later.clock ≤ env.clock + lock_for * second
    → claim_push_jobs later limit' lock_for' db' ≡ ok (jobs', db'')
    → All (λ j. any (λ i. i.id == j.id) jobs ≡ false) jobs'
unfolding Apart
claim_push_jobs-exclusive env later limit lock_for limit' lock_for' db db' db'' jobs jobs' e le e' =
    subst (Post (λ js _. Apart jobs js)) e' (
      subst (Post (λ js d. Post (λ js' _. Apart js js') (claim_push_jobs later limit' lock_for' d)))
        e (claim_twice env later limit lock_for limit' lock_for' db le))

Revoked : ℕ → PushDeviceRow → Type 0
Revoked device d = (d.id == device) ≡ true → is_none d.revoked_at ≡ false

revoke_push_token-Revoked :
    (env : Env) (device : ℕ) (reason : String) (db : Db)
    → Post (λ _ db'. All (Revoked device) db'.push_devices) (revoke_push_token env device reason db)
unfolding revoke_push_token ◌>>=◌ Revoked revoke_device
revoke_push_token-Revoked env device reason db =
    elim (Bool-cases (any (λ d. d.id == device) db.push_devices)) [
      | inl known ↦ rw known (
          All-update_cases _ (λ d. d.id == device) (revoke_device env) (λ d hit is. refl)
            (λ d miss is. cc) db.push_devices)
      | inr unknown ↦ rw unknown tt
    ]

claim-Silences :
    (later : Env) (device limit lock_for : ℕ) (db : Db)
    → All (Revoked device) db.push_devices
    → Post
        (λ jobs _. All (λ j. (j.device_id == device) ≡ false) jobs)
        (claim_push_jobs later limit lock_for db)
unfolding Revoked push_job
claim-Silences later device limit lock_for db h = claim_push_jobs-All _ later limit lock_for db (
    All-of _
      (λ j d ready found. elim (Bool-cases (d.id == device)) [
        | inl same ↦ ground (
          arith,
          find-holds _ db.push_devices d found,
          All-find (Revoked device) _ db.push_devices h found same,
        )
        | inr other ↦ other
      ])
      db.notification_jobs)

-- Once the token of a device is revoked, no claim returns a job for that device.
pub revoke_push_token-Silences :
    (env later : Env) (device limit lock_for : ℕ) (reason : String) (db db' db'' : Db)
    (jobs : List PushJob)
    → revoke_push_token env device reason db ≡ ok (tt, db')
    → claim_push_jobs later limit lock_for db' ≡ ok (jobs, db'')
    → All (λ j. (j.device_id == device) ≡ false) jobs
revoke_push_token-Silences env later device limit lock_for reason db db' db'' jobs e e' =
    subst (Post (λ js _. All (λ j. (j.device_id == device) ≡ false) js)) e' (
      claim-Silences later device limit lock_for db' (
        subst (Post (λ _ d. All (Revoked device) d.push_devices)) e
          (revoke_push_token-Revoked env device reason db)))

Skips : Env → ℕ → ℕ → ℕ → Db → Type 0
Skips later id limit lock_for db =
    Post (λ jobs _. All (λ j. (j.id == id) ≡ false) jobs) (claim_push_jobs later limit lock_for db)

updated_job-Skips :
    (later : Env) (id limit lock_for : ℕ) (f : JobRow → JobRow) (db : Db)
    → ((j : JobRow) → is_ready later (f j) ≡ false)
    → Skips later id limit lock_for
        (record db { notification_jobs = update (is_job id) f db.notification_jobs })
unfolding Skips push_job
updated_job-Skips later id limit lock_for f db h = claim_push_jobs-All _ later limit lock_for _ (
    All-update_cases _ (is_job id) f (λ j hit d ready found. cc (ready, h j))
      (λ j miss d ready found. miss) db.notification_jobs)

sent_job-waits : (later env : Env) (j : JobRow) → is_ready later (sent_row env j) ≡ false
unfolding is_ready sent_row
sent_job-waits later env j = refl

failed_job-waits :
    (later env : Env) (reason : String) (j : JobRow)
    → is_ready later (fail_row env reason j) ≡ false
unfolding is_ready fail_row
failed_job-waits later env reason j = ground arith

mark_push_sent-Skips :
    (env later : Env) (id limit lock_for : ℕ) (db : Db)
    → Post (λ _ db'. Skips later id limit lock_for db') (mark_push_sent env id db)
unfolding mark_push_sent
mark_push_sent-Skips env later id limit lock_for db =
    updated_job-Skips later id limit lock_for (sent_row env) db (sent_job-waits later env)

fail_push-Skips :
    (env later : Env) (id limit lock_for : ℕ) (reason : String) (db : Db)
    → Post (λ _ db'. Skips later id limit lock_for db') (fail_push env id reason db)
unfolding fail_push
fail_push-Skips env later id limit lock_for reason db =
    updated_job-Skips later id limit lock_for (fail_row env reason) db
      (failed_job-waits later env reason)

-- Once a job is sent, or has failed for good, no claim returns it.
pub settled_job-Excluded :
    (env later : Env) (id limit lock_for : ℕ) (reason : String) (db db' db'' : Db)
    (jobs : List PushJob)
    → (mark_push_sent env id db ≡ ok (tt, db')) ⊎ (fail_push env id reason db ≡ ok (tt, db'))
    → claim_push_jobs later limit lock_for db' ≡ ok (jobs, db'')
    → All (λ j. (j.id == id) ≡ false) jobs
unfolding Skips
settled_job-Excluded env later id limit lock_for reason db db' db'' jobs e e' =
    subst (Post (λ js _. All (λ j. (j.id == id) ≡ false) js)) e' skips
  where
    P : Unit {0} → Db → Type 0
    P _ d = Skips later id limit lock_for d

    skips : Skips later id limit lock_for db'
    skips = elim e [
      | inl sent ↦ subst (Post P) sent (mark_push_sent-Skips env later id limit lock_for db)
      | inr failed ↦ subst (Post P) failed (fail_push-Skips env later id limit lock_for reason db)
    ]
