-- ===== src/Store/Sessions/Elapsed.antt =====
-- completeElapsedSession of server/internal/store/collaboration.go.
pub mod Sweep
pub mod Refines
use along.Prelude.{
  ℕ, zero, suc, ◌+◌, ◌*◌, Bool, false, ◌&&◌, ◌||◌, Option, none, some, List, [], ◌∷◌, map, ◌==◌,
  leb, select, update,
}
use along.Domain.Models.{completed, expired, opened, together, paused, state_eq, hour}
use along.Store.Schema.{Db, Env, SessionRow, session_payload}
use along.Store.Tx.{Tx, ◌>>=◌, ◌>>◌, pure, gets, modify}
use along.Store.Events.{append_pair_event}
use along.Store.Sessions.Read.{read_session}

-- paused_at <= clock_timestamp() - interval '24 hours'
abbrev paused_a_day : ℕ → Option ℕ → Bool
paused_a_day clock none = false
paused_a_day clock (some t) = leb (t + 24 * hour) clock

unfoldable pub is_stale : Env → ℕ → SessionRow → Bool
is_stale env pair r =
    r.pair_id == pair && state_eq r.state paused && paused_a_day env.clock r.paused_at

unfoldable pub is_elapsed : Env → ℕ → SessionRow → Bool
is_elapsed env pair r =
    r.pair_id == pair
    && (state_eq r.state opened || state_eq r.state together)
    && leb r.ends_at env.clock

unfoldable pub expire_row : Env → SessionRow → SessionRow
expire_row env r = record r {
  state = expired;
  pause_origin = none;
  paused_at = none;
  version = r.version + 1;
  updated_at = env.clock;
}

unfoldable pub complete_row : Env → ℕ → SessionRow → SessionRow
complete_row env ends_at r = record r {
  state = completed;
  completed_at = some ends_at;
  version = r.version + 1;
  updated_at = env.clock;
}

-- UPDATE focus_sessions SET … WHERE id = $1
unfoldable pub update_session : ℕ → (SessionRow → SessionRow) → Tx (Unit {0})
update_session id f =
    modify λ db. record db { focus_sessions = update (λ r. r.id == id) f db.focus_sessions }

-- The first loop, over the stale sessions.
unfoldable pub expire_each : Env → ℕ → List ℕ → Tx (Unit {0})
expire_each env pair [] = pure tt
expire_each env pair (id ∷ ids) = do
  update_session id (expire_row env)
  session ← read_session id
  cursor ← append_pair_event env pair "session.expired" (some id) none (session_payload session)
  expire_each env pair ids

-- The second loop, over the ids and ends of the elapsed sessions.
unfoldable pub complete_each : Env → ℕ → List (ℕ × ℕ) → Tx (Unit {0})
complete_each env pair [] = pure tt
complete_each env pair ((id, ends_at) ∷ items) = do
  update_session id (complete_row env ends_at)
  session ← read_session id
  cursor ← append_pair_event env pair "session.completed" (some id) none (session_payload session)
  complete_each env pair items

unfoldable pub complete_elapsed_session : Env → ℕ → Tx (Unit {0})
unfolding is_stale is_elapsed expire_each complete_each
complete_elapsed_session env pair = do
  stale ← gets λ db. map (λ r. r.id) (select (is_stale env pair) db.focus_sessions)
  expire_each env pair stale
  elapsed ← gets λ db. map (λ r. (r.id, r.ends_at)) (select (is_elapsed env pair) db.focus_sessions)
  complete_each env pair elapsed
