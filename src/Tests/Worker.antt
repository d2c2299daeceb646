-- ===== src/Tests/Worker.antt =====
-- A queue with one job (31) for one device (21), which the worker meets.
use along.Prelude.{
  decimal, digit, ◌≤◌, ◌<◌, ◌≡◌, refl, ℕ, true, none, some, List, [], ◌∷◌, find, update, select,
  sort_by, is_some, map, arith,
}
use along.Domain.Models.{hour}
use along.Store.Result.{Result, ok, err}
use along.Store.Schema.{Db, Env, JobRow, PushDeviceRow, empty_db}
use along.Store.Tx.{◌>>=◌}
use along.Store.Push.{
  PushJob, push_job, is_job, fail_push, fail_row, claim_push_jobs, claimable, is_ready, lock_job,
  revoke_push_token, revoke_device, is_pending_for, abandon_row,
}
use along.Worker.{
  Answer, backoff, retry_delay, verdict, is_gone, refusal, settle_answer, process, process_each,
  process_batch,
}
use along.Worker.Retries.{Failure, fail_each, fail_each-gives_up, retry_delay_bounds}

abbrev at : ℕ → Env
at t = record { now = t; clock = t; uuid = λ n. t }

abbrev device : PushDeviceRow
device = record {
  id = 21;
  account_id = 2;
  device_install_id = 82;
  token_hash = 5;
  token_ciphertext = 1 ∷ [];
  environment = "production";
  topic = "app";
  created_at = 1;
  revoked_at = none;
}

abbrev row : ℕ → JobRow
row attempts = record {
  id = 31;
  pair_id = 10;
  recipient_account_id = 2;
  push_device_id = 21;
  event_cursor = 1;
  kind = "cheer";
  payload = record { title = "Along"; body = "Ann cheered"; deep_link = "along://" };
  attempts = attempts;
  created_at = 100;
  available_at = 100;
  locked_until = none;
  sent_at = none;
  failed_at = none;
  last_error = none;
}

abbrev queue : ℕ → Db
queue attempts = record empty_db {
  push_devices = device ∷ [];
  notification_jobs = row attempts ∷ [];
}

abbrev db_of : {A : Type 0} → Result (A × Db) → Db
db_of (ok (a, db)) = db
db_of (err e) = empty_db

abbrev jobs_of : Result (List PushJob × Db) → List PushJob
jobs_of (ok (jobs, db)) = jobs
jobs_of (err e) = []

retry_delay_example : (0 < retry_delay (some 12345) 0 12) × (retry_delay (some 12345) 0 12 ≤ hour)
retry_delay_example = retry_delay_bounds (some 12345) 0 12

-- The delays after the second and the twelfth attempt.
delays : (retry_delay (some 2500) 0 2 ≡ 4500000) × (retry_delay none 0 12 ≡ 1024000000)
unfolding retry_delay backoff
delays = (refl, refl)

abbrev failure : ℕ → Failure
failure t = record { env = at t; random = none; reason = "Shutdown"; retry_after = 0 }

abbrev failures : List Failure
failures = failure 1000 ∷ failure 2000 ∷ failure 3000 ∷ []

fail_each-gives_up_example :
    (j : JobRow) × (find (is_job 31) (fail_each 31 device failures (queue 8)).notification_jobs
      ≡ some j)
    × (is_some j.failed_at ≡ true)
unfolding find
fail_each-gives_up_example =
    fail_each-gives_up 31 device failures (queue 8) (row 8) refl (omega arith) (omega arith)

abbrev unregistered_answer : Answer
unregistered_answer = record { status_code = 410; reason = "Unregistered"; retry_after = 0 }

processed : Db
unfolding process settle_answer verdict is_gone revoke_push_token revoke_device is_pending_for
    abandon_row claim_push_jobs claimable is_ready push_job lock_job ◌>>=◌ select update find
    sort_by
processed =
    db_of (process (at 300) none (push_job (row 1, device)) (some unregistered_answer) (queue 1))

-- A batch with a refusal that names no reason.
batch : Db
unfolding processed process_batch process_each fail_push fail_row refusal
batch =
    process_batch (at 300) 5
      (λ j. record {
        env = at 400;
        random = none;
        answer = some (record { status_code = 403; reason = ""; retry_after = 0 });
      })
      (queue 1)

batch_runs : map (λ j. j.last_error) batch.notification_jobs ≡ some "apns_status_403" ∷ []
unfolding batch decimal digit
batch_runs = refl
