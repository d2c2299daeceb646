-- ===== src/Worker.antt =====
-- Worker of server/internal/apns/client.go: what becomes of a claimed job after it is sent.
-- Client.Send, which decrypts the token and talks to APNs over HTTP/2, is a parameter: it gives the
-- status, the reason and Retry-After of the answer, or an error.
pub mod Retries
pub mod Answers
pub mod Cipher
pub mod Client
use Prim.Native.String.{◌++◌ as str_append}
use along.Prelude.{
  ℕ, decimal, ◌+◌, ◌*◌, ◌%◌, ◌^◌, String, Bool, true, false, ◌&&◌, ◌||◌, Option, none, some, List,
  [], ◌∷◌, ◌==◌, ltb, leb, str_eq, if◌then◌else◌,
}
use along.Domain.Models.{second, minute, hour}
use along.Store.Result.{Result, ok, err}
use along.Store.Schema.{Db, Env}
use along.Store.Tx.{Tx, ◌>>=◌, after}
use along.Store.Push.{
  PushJob, claim_push_jobs, mark_push_sent, retry_push, fail_push, revoke_push_token,
}

-- Result; `retry_after` is in microseconds, and 0 without the header.
pub record Answer : Type 0 where
  pub status_code : ℕ
  pub reason : String
  pub retry_after : ℕ

abbrev millisecond : ℕ
millisecond = 1000

-- The exponential delay. `random` is the 64-bit number that crypto/rand gave, if it gave one.
unfoldable pub backoff : Option ℕ → ℕ → ℕ
backoff none attempts = second * 2 ^ (if ltb 10 attempts then 10 else attempts)
backoff (some random) attempts =
    second * 2 ^ (if ltb 10 attempts then 10 else attempts) + random % 1000 * millisecond

unfoldable pub retry_delay : Option ℕ → ℕ → ℕ → ℕ
unfolding backoff
retry_delay random retry_after attempts =
    let delay = if retry_after == 0 then backoff random attempts else retry_after in
    if ltb hour delay then hour else delay

unfoldable pub retry : Env → Option ℕ → PushJob → String → ℕ → Tx (Unit {0})
retry env random job reason retry_after =
    if leb 10 job.attempts
    then fail_push env job.id (str_append "retry_limit: " reason)
    else retry_push job.id (env.now + retry_delay random retry_after job.attempts) reason

-- The cases of the switch in `process`.
pub data Verdict : Type 0 where
  delivered unregistered transient refused : Verdict

unfoldable pub is_gone : ℕ → String → Bool
is_gone status reason =
    status == 410
    || (status == 400 && (str_eq reason "BadDeviceToken" || str_eq reason "DeviceTokenNotForTopic"))

unfoldable pub verdict : ℕ → String → Verdict
verdict status reason =
    if status == 200
    then delivered
    else if is_gone status reason
    then unregistered
    else if status == 429 || leb 500 status
    then transient
    else refused

-- The text of a status in a message, fmt.Sprintf("apns_status_%d", status).
unfoldable pub refusal : ℕ → String → String
refusal status reason =
    if str_eq reason "" then str_append "apns_status_" (decimal status) else reason

unfoldable pub settle_answer : Env → Option ℕ → PushJob → Answer → Verdict → Tx (Unit {0})
settle_answer env random job a delivered = mark_push_sent env job.id
settle_answer env random job a unregistered = revoke_push_token env job.device_id a.reason
settle_answer env random job a transient = retry env random job a.reason a.retry_after
settle_answer env random job a refused = fail_push env job.id (refusal a.status_code a.reason)

-- `none` stands for an error of Send.
unfoldable pub process : Env → Option ℕ → PushJob → Option Answer → Tx (Unit {0})
process env random job none = retry env random job "transport_error" 0
process env random job (some a) = settle_answer env random job a (verdict a.status_code a.reason)

-- What a job of the batch meets: the clocks, the random number and the answer.
pub record Meeting : Type 0 where
  pub env : Env
  pub random : Option ℕ
  pub answer : Option Answer

-- The loop of processBatch, which logs an error and goes on.
unfoldable pub process_each : (PushJob → Meeting) → List PushJob → Db → Db
process_each meet [] db = db
process_each meet (job ∷ jobs) db =
    let m = meet job in process_each meet jobs (after (process m.env m.random job m.answer) db)

-- time.Minute as the lock, in seconds.
unfoldable pub process_batch : Env → ℕ → (PushJob → Meeting) → Db → Db
process_batch env batch_size meet db = elim (claim_push_jobs env batch_size 60 db) [
  | ok (jobs, db') ↦ process_each meet jobs db'
  | err e ↦ db
]
