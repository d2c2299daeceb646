-- ===== src/Store/Sessions/Transition.antt =====
-- JoinSession, TransitionSession and transitionSession of server/internal/store/collaboration.go.
use along.Prelude.{
  ℕ, ◌+◌, ◌-◌, String, Bool, not, ◌||◌, Option, none, some, ◌==◌, ltb, false, is_some,
}
use Prim.Native.String.{◌++◌ as str_append}
use along.Domain.Models.{
  AuthIdentity, FocusSession, SessionState, paused, completed, cancelled, expired,
}
use along.Domain.StateMachine.{
  SessionAction, join, pause, resume, complete, cancel, expire, next_state, action_name,
}
use along.Store.Result.{conflict, version_mismatch}
use along.Store.Schema.{Env, SessionRow, session_payload, session_response}
use along.Store.Tx.{Tx, ◌>>=◌, ◌>>◌, pure, guard, or_fail}
use along.Store.Events.{append_pair_event}
use along.Store.Idempotency.{idempotent_session, save_idempotency}
use along.Store.Sessions.Read.{read_session, read_session_for_update, require_pair_member}
use along.Store.Sessions.Elapsed.{update_session}
use along.Store.Sessions.Start.{insert_session_member, or_replay, in_pair}

-- ends_at + ($3 - paused_at). The action is refused before, where the row has no paused_at.
abbrev pub shift_end : ℕ → ℕ → Option ℕ → ℕ
shift_end ends_at now none = ends_at
shift_end ends_at now (some paused_at) = ends_at + now - paused_at

-- The assignments of the UPDATE for each action.
unfoldable pub apply_action :
    SessionAction → SessionState → Option SessionState → ℕ → SessionRow → SessionRow
apply_action join next origin now r = record r {
  state = next;
  version = r.version + 1;
  updated_at = now;
}
apply_action pause next origin now r = record r {
  state = paused;
  pause_origin = origin;
  paused_at = some now;
  version = r.version + 1;
  updated_at = now;
}
apply_action resume next origin now r = record r {
  state = next;
  pause_origin = none;
  ends_at = shift_end r.ends_at now r.paused_at;
  paused_at = none;
  version = r.version + 1;
  updated_at = now;
}
apply_action complete next origin now r = record r {
  state = completed;
  pause_origin = none;
  paused_at = none;
  completed_at = some now;
  version = r.version + 1;
  updated_at = now;
}
apply_action cancel next origin now r = record r {
  state = cancelled;
  pause_origin = none;
  paused_at = none;
  cancelled_at = some now;
  version = r.version + 1;
  updated_at = now;
}
apply_action expire next origin now r = record r {
  state = expired;
  pause_origin = none;
  paused_at = none;
  version = r.version + 1;
  updated_at = now;
}

-- The checks and the inserts that some actions make before the UPDATE.
unfoldable pub before_action : Env → AuthIdentity → ℕ → FocusSession → SessionAction → Tx (Unit {0})
before_action env identity id current join = do
  guard (not (current.started_by == identity.account_id || ltb current.ends_at env.now)) conflict
  insert_session_member id identity.account_id env.now
before_action env identity id current resume = guard (is_some current.paused_at) conflict
before_action env identity id current _ = pure tt

-- "session." + string(action)
unfoldable pub operation_of : SessionAction → String
unfolding action_name
operation_of action = str_append "session." (action_name action)

unfoldable pub event_type_of : SessionAction → String
unfolding operation_of
event_type_of join = "session.joined"
event_type_of action = operation_of action

-- transitionSession after the replay of a stored response is ruled out.
unfoldable pub transition_new :
    Env → AuthIdentity → ℕ → ℕ → ℕ → ℕ → SessionAction → Tx (FocusSession × Bool)
transition_new env identity pair id key expected_version action = do
  require_pair_member pair identity.account_id
  current ← read_session_for_update id pair
  guard (current.version == expected_version) version_mismatch
  next ← or_fail conflict (next_state current.state current.pause_origin action)
  before_action env identity id current action
  update_session id (apply_action action next.0 next.1 env.now)
  session ← read_session id
  cursor ←
      append_pair_event env pair (event_type_of action) (some id) (some identity.account_id)
        (session_payload session)
  save_idempotency env identity.account_id key (operation_of action) (session_response session)
  pure (session, false)

unfoldable pub transition_session :
    Env → AuthIdentity → ℕ → ℕ → ℕ → SessionAction → Tx (FocusSession × Bool)
transition_session env identity id key expected_version action = in_pair identity.pair_id λ pair. do
  cached ← idempotent_session env identity.account_id key (operation_of action)
  or_replay cached (transition_new env identity pair id key expected_version action)

unfoldable pub join_session : Env → AuthIdentity → ℕ → ℕ → ℕ → Tx (FocusSession × Bool)
join_session env identity id key expected_version =
    transition_session env identity id key expected_version join
