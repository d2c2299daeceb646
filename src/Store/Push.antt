-- ===== src/Store/Push.antt =====
-- server/internal/store/push.go: the devices and the queue of notification jobs.
pub mod Laws
use along.Prelude.{
  str_eq, ℕ, ◌+◌, ◌*◌, String, Bool, true, false, not, ◌&&◌, ◌||◌, Option, none, some, List, [],
  ◌∷◌, ◌++◌, map, ◌==◌, ltb, leb, any, find, select, update, take, sort_by, is_none, coalesce,
  if◌then◌else◌,
}
use along.Domain.Models.{second}
use along.Store.Result.{ok, err, check_violation, not_found}
use along.Store.Schema.{InstallRow, Db, Env, JobRow, PushDeviceRow, Alert}
use along.Store.Tx.{Tx, ◌>>=◌, ◌>>◌, pure, gets, guard, modify}

-- PushJob
pub record PushJob : Type 0 where
  pub id : ℕ
  pub device_id : ℕ
  pub token_cipher : List ℕ
  pub environment : String
  pub topic : String
  pub payload : Alert
  pub attempts : ℕ

-- The WHERE EXISTS of the INSERT.
unfoldable pub is_live_install_of : ℕ → ℕ → InstallRow → Bool
is_live_install_of account installation d =
    d.id == installation && d.account_id == account && is_none d.revoked_at

-- ON CONFLICT (token_hash) DO UPDATE SET
unfoldable pub taken_over : ℕ → ℕ → List ℕ → String → String → PushDeviceRow → PushDeviceRow
taken_over account installation cipher environment topic d = record d {
  account_id = account;
  device_install_id = installation;
  token_ciphertext = cipher;
  environment = environment;
  topic = topic;
  revoked_at = none;
}

unfoldable pub is_environment : String → Bool
is_environment environment = str_eq environment "sandbox" || str_eq environment "production"

-- `sha256` is crypto/sha256's Sum256.
unfoldable pub register_push_device :
    (String → ℕ) → Env → ℕ → ℕ → String → List ℕ → String → String → Tx (Unit {0})
unfolding is_live_install_of taken_over is_environment
register_push_device sha256 env account installation token cipher environment topic db =
    if not (any (is_live_install_of account installation) db.device_installs)
    then err not_found
    else if not (is_environment environment)
    then err check_violation
    else if any (λ d. d.token_hash == sha256 token) db.push_devices
    then ok (
      tt,
      record db {
        push_devices =
            update (λ d. d.token_hash == sha256 token)
              (taken_over account installation cipher environment topic) db.push_devices;
      },
    )
    else ok (
      tt,
      record db {
        push_devices =
            db.push_devices
            ++ record {
              id = env.uuid 0;
              account_id = account;
              device_install_id = installation;
              token_hash = sha256 token;
              token_ciphertext = cipher;
              environment = environment;
              topic = topic;
              created_at = env.clock;
              revoked_at = none;
            }
              ∷ [];
      },
    )

-- account_id = $1 AND device_install_id = $2
abbrev pub is_install_of : ℕ → ℕ → PushDeviceRow → Bool
is_install_of account installation d =
    d.account_id == account && d.device_install_id == installation

-- revoked_at = COALESCE(revoked_at, clock_timestamp())
unfoldable pub revoke_device : Env → PushDeviceRow → PushDeviceRow
revoke_device env d = record d { revoked_at = some (coalesce d.revoked_at env.clock) }

unfoldable pub revoke_push_device : Env → ℕ → ℕ → Tx (Unit {0})
unfolding revoke_device
revoke_push_device env account installation = modify λ db. record db {
  push_devices = update (is_install_of account installation) (revoke_device env) db.push_devices;
}

-- locked_until IS NULL OR locked_until < clock_timestamp()
abbrev is_unlocked : ℕ → Option ℕ → Bool
is_unlocked clock none = true
is_unlocked clock (some t) = ltb t clock

-- The WHERE of the claim.
unfoldable pub is_ready : Env → JobRow → Bool
is_ready env j =
    is_none j.sent_at
    && is_none j.failed_at
    && leb j.available_at env.clock
    && is_unlocked env.clock j.locked_until

-- The job with the device that the JOIN gives it.
abbrev pub device_of : List PushDeviceRow → JobRow → Option PushDeviceRow
device_of devices j = find (λ d. d.id == j.push_device_id && is_none d.revoked_at) devices

unfoldable pub claimable : Env → List PushDeviceRow → List JobRow → List (JobRow × PushDeviceRow)
claimable env devices [] = []
claimable env devices (j ∷ js) =
    let rest = claimable env devices js in
    if is_ready env j
    then elim (device_of devices j) [ none ↦ rest | some d ↦ (j, d) ∷ rest ]
    else rest

-- ORDER BY j.created_at, d.created_at
abbrev pub older : JobRow × PushDeviceRow → JobRow × PushDeviceRow → Bool
older a b =
    ltb a.0.created_at b.0.created_at
    || (a.0.created_at == b.0.created_at && leb a.1.created_at b.1.created_at)

unfoldable pub push_job : JobRow × PushDeviceRow → PushJob
push_job (j, d) = record {
  id = j.id;
  device_id = d.id;
  token_cipher = d.token_ciphertext;
  environment = d.environment;
  topic = d.topic;
  payload = j.payload;
  attempts = j.attempts;
}

abbrev pub is_claimed : List (JobRow × PushDeviceRow) → JobRow → Bool
is_claimed claimed j = any (λ c. c.0.id == j.id) claimed

unfoldable pub lock_job : Env → ℕ → JobRow → JobRow
lock_job env lock_for j = record j { locked_until = some (env.clock + lock_for * second) }

-- `lock_for` is in whole seconds. A row that another transaction has locked is skipped in the
-- source; here a call is one step, so no such row is in sight. The jobs
-- come back in the order of the claim, which RETURNING does not promise.
unfoldable pub claim_push_jobs : Env → ℕ → ℕ → Tx (List PushJob)
unfolding claimable push_job lock_job
claim_push_jobs env limit lock_for = do
  claimed ←
      gets λ db. take limit (sort_by older (claimable env db.push_devices db.notification_jobs))
  modify λ db. record db {
    notification_jobs = update (is_claimed claimed) (lock_job env lock_for) db.notification_jobs;
  }
  pure (map push_job claimed)

abbrev pub is_job : ℕ → JobRow → Bool
is_job id j = j.id == id

unfoldable pub sent_row : Env → JobRow → JobRow
sent_row env j = record j { sent_at = some env.clock; locked_until = none; last_error = none }

unfoldable pub mark_push_sent : Env → ℕ → Tx (Unit {0})
mark_push_sent env id =
    modify
      λ db. record db { notification_jobs = update (is_job id) (sent_row env) db.notification_jobs }

unfoldable pub retry_row : ℕ → String → JobRow → JobRow
retry_row available_at reason j = record j {
  attempts = j.attempts + 1;
  available_at = available_at;
  locked_until = none;
  last_error = some reason;
}

unfoldable pub retry_push : ℕ → ℕ → String → Tx (Unit {0})
retry_push id available_at reason = modify λ db. record db {
  notification_jobs = update (is_job id) (retry_row available_at reason) db.notification_jobs;
}

unfoldable pub fail_row : Env → String → JobRow → JobRow
fail_row env reason j = record j {
  attempts = j.attempts + 1;
  failed_at = some env.clock;
  locked_until = none;
  last_error = some reason;
}

unfoldable pub fail_push : Env → ℕ → String → Tx (Unit {0})
fail_push env id reason = modify λ db. record db {
  notification_jobs = update (is_job id) (fail_row env reason) db.notification_jobs;
}

-- push_device_id = $1 AND sent_at IS NULL AND failed_at IS NULL
unfoldable pub is_pending_for : ℕ → JobRow → Bool
is_pending_for device j = j.push_device_id == device && is_none j.sent_at && is_none j.failed_at

unfoldable pub abandon_row : Env → String → JobRow → JobRow
abandon_row env reason j = record j {
  failed_at = some (coalesce j.failed_at env.clock);
  locked_until = none;
  last_error = some reason;
}

unfoldable pub revoke_push_token : Env → ℕ → String → Tx (Unit {0})
unfolding revoke_device
revoke_push_token env device reason = do
  known ← gets λ db. any (λ d. d.id == device) db.push_devices
  guard known not_found
  modify λ db. record db {
    push_devices = update (λ d. d.id == device) (revoke_device env) db.push_devices;
  }
  modify λ db. record db {
    notification_jobs =
        update (is_pending_for device) (abandon_row env reason) db.notification_jobs;
  }
