-- ===== src/Tests/Push.antt =====
-- One device (21) of Bob's, with two jobs in the queue: 31 is claimed first.
use along.Prelude.{
  ℕ, ◌≡◌, refl, false, none, List, [], ◌∷◌, ◌==◌, any, All, map, select, update, find, sort_by,
  arith,
}
use along.Store.Result.{Result, ok, err}
use along.Store.Schema.{Db, Env, JobRow, empty_db}
use along.Store.Tx.{◌>>=◌}
use along.Store.Push.{
  PushJob, claim_push_jobs, claimable, is_ready, push_job, lock_job, revoke_push_token,
  revoke_device, is_pending_for, abandon_row, mark_push_sent, sent_row,
}
use along.Store.Push.Laws.{claim_push_jobs-exclusive}

abbrev at : ℕ → Env
at t = record { now = t; clock = t; uuid = λ n. t }

abbrev job : ℕ → ℕ → JobRow
job id created = record {
  id = id;
  pair_id = 10;
  recipient_account_id = 2;
  push_device_id = 21;
  event_cursor = 1;
  kind = "cheer";
  payload = record { title = "Along"; body = "Ann cheered"; deep_link = "along://" };
  attempts = 0;
  created_at = created;
  available_at = created;
  locked_until = none;
  sent_at = none;
  failed_at = none;
  last_error = none;
}

abbrev queue_db : Db
queue_db = record empty_db {
  push_devices =
      record {
        id = 21;
        account_id = 2;
        device_install_id = 82;
        token_hash = 5;
        token_ciphertext = 1 ∷ [];
        environment = "production";
        topic = "app";
        created_at = 1;
        revoked_at = none;
      }
      ∷ [];
  notification_jobs = job 32 200 ∷ job 31 100 ∷ [];
}

abbrev db_of : {A : Type 0} → Result (A × Db) → Db
db_of (ok (a, db)) = db
db_of (err e) = empty_db

abbrev jobs_of : Result (List PushJob × Db) → List PushJob
jobs_of (ok (jobs, db)) = jobs
jobs_of (err e) = []

first : Result (List PushJob × Db)
unfolding claim_push_jobs claimable is_ready push_job lock_job ◌>>=◌ select update find sort_by
first = claim_push_jobs (at 300) 1 30 queue_db

next : Result (List PushJob × Db)
unfolding first
next = claim_push_jobs (at 400) 5 30 (db_of first)

claims_in_order :
    (map (λ j. j.id) (jobs_of first) ≡ 31 ∷ []) × (map (λ j. j.id) (jobs_of next) ≡ 32 ∷ [])
unfolding next
claims_in_order = (refl, refl)

claim_push_jobs-exclusive_example :
    All (λ j. any (λ i. i.id == j.id) (jobs_of first) ≡ false) (jobs_of next)
unfolding next
claim_push_jobs-exclusive_example =
    claim_push_jobs-exclusive (at 300) (at 400) 1 30 5 30 queue_db (db_of first) (db_of next)
      (jobs_of first) (jobs_of next) refl (omega arith) refl

revoked : Db
unfolding claim_push_jobs claimable is_ready push_job lock_job ◌>>=◌ select update find sort_by
    revoke_push_token revoke_device is_pending_for abandon_row
revoked = db_of (revoke_push_token (at 300) 21 "Unregistered" queue_db)

sent : Db
unfolding claim_push_jobs claimable is_ready push_job lock_job ◌>>=◌ select update find sort_by
    mark_push_sent sent_row
sent = db_of (mark_push_sent (at 300) 31 queue_db)
