-- ===== src/Store/Sessions/Calls.antt =====
-- The calls of the store on focus sessions, one after another: each in a transaction of its own,
-- that a failure rolls back. The environment chooses the clocks, the caller and the arguments.
use along.Prelude.{ℕ, List, [], ◌∷◌}
use along.Domain.Models.{AuthIdentity}
use along.Domain.StateMachine.{SessionAction}
use along.Store.Schema.{Db, Env}
use along.Store.Tx.{after, Keeps-after}
use along.Store.Sessions.Start.{start_session, import_solo_session}
use along.Store.Sessions.Transition.{transition_session}
use along.Store.Sessions.Care.{add_note, add_cheer}
use along.Store.Sessions.Queries.{current_session}
use along.Store.Sessions.Keeps.{
  Consistent, transition_session-Consistent, current_session-Keeps, start_session-Consistent,
  import_solo_session-Consistent, add_note-Consistent, add_cheer-Consistent,
}

pub data Call : Type 0 where
  start : (key id : ℕ) → Call
  import_solo : (key id started_at completed_at : ℕ) → Call
  transition : (id key expected_version : ℕ) → SessionAction → Call
  note : (id key : ℕ) → List ℕ → Call
  cheer : (id key : ℕ) → Call
  current : Call

unfoldable pub step : Env → AuthIdentity → Call → Db → Db
step env identity (start key id) = after (start_session env identity key id)
step env identity (import_solo key id started_at completed_at) =
    after (import_solo_session env identity key id started_at completed_at)
step env identity (transition id key version action) =
    after (transition_session env identity id key version action)
step env identity (note id key body) = after (add_note env identity id key body)
step env identity (cheer id key) = after (add_cheer env identity id key)
step env identity current = after (current_session env identity)

unfoldable pub run : List (Env × AuthIdentity × Call) → Db → Db
unfolding step
run [] db = db
run ((env, identity, call) ∷ rest) db = run rest (step env identity call db)

step-Consistent :
    (env : Env) (identity : AuthIdentity) (call : Call) (db : Db)
    → Consistent db
    → Consistent (step env identity call db)
unfolding step
step-Consistent env identity (start key id) =
    Keeps-after _ (start_session-Consistent env identity key id)
step-Consistent env identity (import_solo key id started_at completed_at) =
    Keeps-after _ (import_solo_session-Consistent env identity key id started_at completed_at)
step-Consistent env identity (transition id key version action) =
    Keeps-after _ (transition_session-Consistent env identity id key version action)
step-Consistent env identity (note id key body) =
    Keeps-after _ (add_note-Consistent env identity id key body)
step-Consistent env identity (cheer id key) =
    Keeps-after _ (add_cheer-Consistent env identity id key)
step-Consistent env identity current = Keeps-after _ (current_session-Keeps env identity)

-- Whatever calls are made, in whatever order and at whatever times, a consistent table of sessions
-- stays so: session ids are distinct, no pair has two active sessions, and every row carries
-- exactly the pause, completion and cancellation data that its state calls for. In particular the
-- UPDATEs of the code cannot violate the unique index on active sessions.
pub run-Consistent :
    (calls : List (Env × AuthIdentity × Call)) (db : Db) → Consistent db → Consistent (run calls db)
unfolding run
run-Consistent [] db c = c
run-Consistent ((env, identity, call) ∷ rest) db c =
    run-Consistent rest (step env identity call db) (step-Consistent env identity call db c)
