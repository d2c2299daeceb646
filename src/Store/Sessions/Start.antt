-- ===== src/Store/Sessions/Start.antt =====
-- StartSession and ImportSoloSession of server/internal/store/collaboration.go.
use along.Prelude.{
  ℕ, ◌+◌, ◌*◌, ◌-◌, Bool, true, false, not, ◌&&◌, ◌||◌, Option, none, some, [], ◌∷◌, ◌++◌, ◌==◌,
  ltb, any, if◌then◌else◌,
}
use along.Domain.Models.{
  AuthIdentity, FocusSession, opened, together, paused, completed, state_eq, minute, hour,
  SessionState,
}
use along.Store.Result.{ok, err, not_found, conflict, active_session, unique_violation}
use along.Store.Schema.{Env, SessionRow, SessionMemberRow, Alert, session_payload, session_response}
use along.Store.Tx.{Tx, ◌>>=◌, ◌>>◌, pure, fail, gets, guard}
use along.Store.Events.{append_pair_event, enqueue_partner_notification}
use along.Store.Idempotency.{idempotent_session, save_idempotency}
use along.Store.Sessions.Read.{read_session, require_pair_member}
use along.Store.Sessions.Elapsed.{complete_elapsed_session}

-- state IN ('open', 'together', 'paused')
abbrev pub is_active_state : SessionState → Bool
is_active_state s = state_eq s opened || (state_eq s together || state_eq s paused)

abbrev pub is_active_in : ℕ → SessionRow → Bool
is_active_in pair r = r.pair_id == pair && is_active_state r.state

-- The primary key, and the index one_active_session_per_pair_idx.
unfoldable pub insert_session : SessionRow → Tx (Unit {0})
insert_session row db =
    if any (λ r. r.id == row.id) db.focus_sessions
      || (is_active_state row.state && any (is_active_in row.pair_id) db.focus_sessions)
    then err unique_violation
    else ok (tt, record db { focus_sessions = db.focus_sessions ++ row ∷ [] })

-- The primary key is (session_id, account_id).
unfoldable pub insert_session_member : ℕ → ℕ → ℕ → Tx (Unit {0})
insert_session_member session account joined_at db =
    if any (λ m. m.session_id == session && m.account_id == account) db.session_members
    then err unique_violation
    else ok (tt, record db { session_members = db.session_members ++ row ∷ [] })
  where
    row : SessionMemberRow
    row = record { session_id = session; account_id = account; joined_at = joined_at }

unfoldable pub started_row : Env → ℕ → ℕ → ℕ → SessionRow
started_row env pair account id = record {
  id = id;
  pair_id = pair;
  started_by = account;
  state = opened;
  pause_origin = none;
  duration_seconds = 1500;
  started_at = env.now;
  ends_at = env.now + 25 * minute;
  paused_at = none;
  completed_at = none;
  cancelled_at = none;
  version = 1;
  offline_origin = false;
  updated_at = env.clock;
}

abbrev focus_started_alert : Alert
focus_started_alert = record {
  title = "Along";
  body = "Your partner started a focus.";
  deep_link = "along:///focus";
}

-- StartSession after the replay of a stored response is ruled out.
unfoldable pub start_new : Env → AuthIdentity → ℕ → ℕ → ℕ → Tx (FocusSession × Bool)
unfolding started_row
start_new env identity pair key id = do
  require_pair_member pair identity.account_id
  complete_elapsed_session env pair
  active ← gets λ db. any (is_active_in pair) db.focus_sessions
  guard (not active) active_session
  insert_session (started_row env pair identity.account_id id)
  insert_session_member id identity.account_id env.now
  session ← read_session id
  cursor ←
      append_pair_event env pair "session.started" (some id) (some identity.account_id)
        (session_payload session)
  enqueue_partner_notification env pair identity.account_id cursor "focus_started"
      focus_started_alert
  save_idempotency env identity.account_id key "session.start" (session_response session)
  pure (session, false)

-- A stored response is returned with the flag that marks a replay.
unfoldable pub or_replay : {A : Type 0} → Option A → Tx (A × Bool) → Tx (A × Bool)
or_replay none m = m
or_replay (some a) m = pure (a, true)

unfoldable pub in_pair : {A : Type 0} → Option ℕ → (ℕ → Tx A) → Tx A
in_pair none f = fail not_found
in_pair (some pair) f = f pair

unfoldable pub start_session : Env → AuthIdentity → ℕ → ℕ → Tx (FocusSession × Bool)
start_session env identity key id = in_pair identity.pair_id λ pair. do
  cached ← idempotent_session env identity.account_id key "session.start"
  or_replay cached (start_new env identity pair key id)

unfoldable pub imported_row : Env → ℕ → ℕ → ℕ → ℕ → ℕ → SessionRow
imported_row env pair account id started_at completed_at = record {
  id = id;
  pair_id = pair;
  started_by = account;
  state = completed;
  pause_origin = none;
  duration_seconds = 1500;
  started_at = started_at;
  ends_at = completed_at;
  paused_at = none;
  completed_at = some completed_at;
  cancelled_at = none;
  version = 1;
  offline_origin = true;
  updated_at = env.clock;
}

-- startedAt.After(completedAt) || completedAt.Sub(startedAt) > 24h || completedAt.After(now + 2min)
unfoldable pub import_refused : Env → ℕ → ℕ → Bool
import_refused env started_at completed_at =
    ltb completed_at started_at
    || (ltb (24 * hour) (completed_at - started_at) || ltb (env.now + 2 * minute) completed_at)

unfoldable pub import_new : Env → AuthIdentity → ℕ → ℕ → ℕ → ℕ → ℕ → Tx (FocusSession × Bool)
unfolding imported_row
import_new env identity pair key id started_at completed_at = do
  require_pair_member pair identity.account_id
  insert_session (imported_row env pair identity.account_id id started_at completed_at)
  insert_session_member id identity.account_id started_at
  session ← read_session id
  cursor ←
      append_pair_event env pair "session.completed" (some id) (some identity.account_id)
        (session_payload session)
  save_idempotency env identity.account_id key "session.import_solo" (session_response session)
  pure (session, false)

unfoldable pub import_solo_session : Env → AuthIdentity → ℕ → ℕ → ℕ → ℕ → Tx (FocusSession × Bool)
unfolding import_refused
import_solo_session env identity key id started_at completed_at = in_pair identity.pair_id λ pair.
    do
      guard (not (import_refused env started_at completed_at)) conflict
      cached ← idempotent_session env identity.account_id key "session.import_solo"
      or_replay cached (import_new env identity pair key id started_at completed_at)
