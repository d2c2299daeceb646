-- ===== src/Store/Events.antt =====
-- appendPairEvent and enqueuePartnerNotification of server/internal/store/collaboration.go. A
-- payload is kept as a value in place of its JSON, so that marshalling cannot fail.
use along.Prelude.{
  ℕ, suc, String, not, ◌&&◌, Option, none, List, [], ◌∷◌, ◌++◌, ◌==◌, is_none, select,
}
use along.Store.Result.{ok}
use along.Store.Schema.{Db, Env, EventRow, Payload, PairMemberRow, PushDeviceRow, JobRow, Alert}
use along.Store.Tx.{Tx, modify}

event_row : Env → ℕ → ℕ → String → Option ℕ → Option ℕ → Payload → EventRow
event_row env cursor pair event_type entity actor payload = record {
  cursor = cursor;
  pair_id = pair;
  event_type = event_type;
  entity_id = entity;
  actor_id = actor;
  payload = payload;
  created_at = env.clock;
}

-- The database after INSERT INTO pair_events and pg_notify.
unfoldable pub with_event : Env → ℕ → String → Option ℕ → Option ℕ → Payload → Db → Db
unfolding event_row
with_event env pair event_type entity actor payload db = record db {
  pair_events =
      db.pair_events ++ event_row env db.next_cursor pair event_type entity actor payload ∷ [];
  next_cursor = suc db.next_cursor;
  notified = db.notified ++ record { pair_id = pair; cursor = db.next_cursor } ∷ [];
}

-- RETURNING cursor
unfoldable pub append_pair_event : Env → ℕ → String → Option ℕ → Option ℕ → Payload → Tx ℕ
append_pair_event env pair event_type entity actor payload db =
    ok (db.next_cursor, with_event env pair event_type entity actor payload db)

-- The devices of the other members of the pair that are not revoked.
unfoldable pub recipients : ℕ → ℕ → List PairMemberRow → List PushDeviceRow → List PushDeviceRow
recipients pair actor [] devices = []
recipients pair actor (pm ∷ rest) devices =
    select
      (λ d.
        pm.pair_id == pair
        && not (pm.account_id == actor)
        && d.account_id == pm.account_id
        && is_none d.revoked_at)
      devices
    ++ recipients pair actor rest devices

-- One job for each device; the `n`-th UUID of the call goes to the first.
unfoldable pub jobs_for : Env → ℕ → ℕ → ℕ → String → Alert → List PushDeviceRow → List JobRow
jobs_for env n pair cursor kind alert [] = []
jobs_for env n pair cursor kind alert (d ∷ ds) =
    job ∷ jobs_for env (suc n) pair cursor kind alert ds
  where
    job : JobRow
    job = record {
      id = env.uuid n;
      pair_id = pair;
      recipient_account_id = d.account_id;
      push_device_id = d.id;
      event_cursor = cursor;
      kind = kind;
      payload = alert;
      attempts = 0;
      created_at = env.clock;
      available_at = env.clock;
      locked_until = none;
      sent_at = none;
      failed_at = none;
      last_error = none;
    }

unfoldable pub enqueue_partner_notification : Env → ℕ → ℕ → ℕ → String → Alert → Tx (Unit {0})
unfolding recipients jobs_for
enqueue_partner_notification env pair actor cursor kind alert = modify λ db. record db {
  notification_jobs =
      db.notification_jobs
      ++ jobs_for env 1 pair cursor kind alert
          (recipients pair actor db.pair_members db.push_devices);
}
