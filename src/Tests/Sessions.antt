-- ===== src/Tests/Sessions.antt =====
-- Ann (1) and Bob (2) are a pair (10). Ann starts a session, Bob joins it and pauses it.
use along.Prelude.{
  ℕ, ◌+◌, ◌*◌, ◌≡◌, refl, Bool, true, false, none, some, List, [], ◌∷◌, arith, select, update, find,
  map, ◌↔◌,
}
use along.Domain.Models.{
  AuthIdentity, FocusSession, SessionNote, opened, together, paused, minute, second,
}
use along.Domain.StateMachine.{join, pause, resume, next_state, action_name}
use along.Domain.StateMachine.Laws.{Transition, next_state-iff-Transition}
use along.Store.Result.{Result, ok, err, version_mismatch}
use along.Store.Schema.{Db, Env, empty_db, active, CheerResponse}
use along.Store.Tx.{◌>>=◌}
use along.Store.Events.{append_pair_event, with_event, enqueue_partner_notification}
use along.Store.Idempotency.{
  as_note, as_cheer, get_idempotency, as_session, idempotent_session, save_idempotency, with_key,
}
use along.Store.Sessions.Read.{
  session_of, read_session, read_session_for_update, require_pair_member, is_pair_member,
}
use along.Store.Sessions.Elapsed.{complete_elapsed_session, update_session}
use along.Store.Sessions.Start.{
  start_session, start_new, insert_session, insert_session_member, in_pair, or_replay,
  import_solo_session, import_new, import_refused,
}
use along.Store.Sessions.Transition.{
  transition_session, transition_new, before_action, apply_action, event_type_of, operation_of,
}
use along.Store.Sessions.Replay.{start_session-replay, transition_session-replay}
use along.Store.Sessions.Care.{
  add_note, note_new, insert_note, note_row, note_of, add_cheer, cheer_new, can_cheer,
  is_recent_cheer, with_reaction, reaction_row,
}
use along.Store.Sessions.Calls.{Call, run, run-Consistent}
use along.Store.Sessions.Invariant.{IsConsistent}
use along.Store.Sessions.Elapsed.Refines.{settle_row, complete_elapsed_session-refines}
use along.Store.Sessions.Versions.{Updates, transition_session-Updates, transition_session-stale}

abbrev pub ann : AuthIdentity
ann = record {
  account_id = 1;
  session_id = 71;
  installation_id = 81;
  pair_id = some 10;
  display_name = "Ann";
}

abbrev pub bob : AuthIdentity
bob = record {
  account_id = 2;
  session_id = 72;
  installation_id = 82;
  pair_id = some 10;
  display_name = "Bob";
}

abbrev pub at : ℕ → Env
at t = record { now = t; clock = t; uuid = λ n. t + n }

abbrev pub paired_db : Db
paired_db = record empty_db {
  accounts =
      record {
        id = 1;
        webauthn_user_handle = 1;
        display_name = "Ann";
        recovery_handle = "A";
        status = active;
        created_at = 0;
      }
      ∷ record {
        id = 2;
        webauthn_user_handle = 2;
        display_name = "Bob";
        recovery_handle = "B";
        status = active;
        created_at = 0;
      }
      ∷ [];
  pairs = record { id = 10; created_at = 5; dissolved_at = none } ∷ [];
  pair_members =
      record { pair_id = 10; account_id = 1 } ∷ record { pair_id = 10; account_id = 2 } ∷ [];
}

abbrev no_session : FocusSession
no_session = record {
  id = 0;
  pair_id = 0;
  started_by = 0;
  state = opened;
  pause_origin = none;
  duration_seconds = 0;
  started_at = 0;
  ends_at = 0;
  paused_at = none;
  completed_at = none;
  cancelled_at = none;
  version = 0;
  offline_origin = false;
  participants = [];
  notes = [];
}

abbrev outcome : Result ((FocusSession × Bool) × Db) → FocusSession × Db
outcome (ok ((s, replayed), db)) = (s, db)
outcome (err e) = (no_session, empty_db)

started : FocusSession × Db
unfolding start_session in_pair or_replay ◌>>=◌ idempotent_session get_idempotency as_session
    start_new require_pair_member complete_elapsed_session update select find insert_session
    insert_session_member read_session session_of append_pair_event with_event
    enqueue_partner_notification save_idempotency with_key
started = outcome (start_session (at 1000) ann 7 100 paired_db)

started_together : (started.0.state ≡ opened) × (started.0.ends_at ≡ 1000 + 25 * minute)
unfolding started
started_together = (refl, refl)

start_session-replay_example :
    start_session (at 2000) ann 7 101 started.1 ≡ ok ((started.0, true), started.1)
unfolding started
start_session-replay_example =
    start_session-replay (at 1000) (at 2000) ann (omega arith) 7 100 101 paired_db started.0
      started.1 refl

joined : FocusSession × Db
unfolding started transition_session transition_new read_session_for_update next_state before_action
    update_session apply_action event_type_of operation_of action_name
joined = outcome (transition_session (at 3000) bob 100 8 1 join started.1)

joined_together : (joined.0.state ≡ together) × (joined.0.version ≡ 2)
unfolding joined
joined_together = (refl, refl)

transition_session-replay_example :
    transition_session (at 4000) bob 100 8 1 join joined.1 ≡ ok ((joined.0, true), joined.1)
unfolding joined
transition_session-replay_example =
    transition_session-replay (at 3000) (at 4000) bob (omega arith) 100 100 8 1 1 join started.1
      joined.0 joined.1 refl

transition_session-Updates_example : Updates 100 1 join started.1 joined.0 joined.1
unfolding joined
transition_session-Updates_example =
    transition_session-Updates (at 3000) bob 100 8 1 join started.1 joined.0 joined.1 refl

-- Ann did not see that Bob joined.
transition_session-stale_example :
    transition_session (at 4000) ann 100 9 1 pause joined.1 ≡ err version_mismatch
unfolding joined is_pair_member
transition_session-stale_example =
    transition_session-stale (at 3000) (at 4000) bob ann 10 100 8 9 1 join pause started.1 joined.0
      joined.1 refl refl refl refl refl

paused_session : FocusSession × Db
unfolding joined
paused_session = outcome (transition_session (at 5000) ann 100 9 2 pause joined.1)

resumed_session : FocusSession × Db
unfolding paused_session
resumed_session = outcome (transition_session (at 9000) bob 100 10 3 resume paused_session.1)

resume_shifts_end :
    (resumed_session.0.state ≡ together) × (resumed_session.0.ends_at ≡ 1000 + 25 * minute + 4000)
unfolding resumed_session
resume_shifts_end = (refl, refl)

complete_elapsed_session-refines_example :
    (db' : Db) × (complete_elapsed_session (at (2000 * second)) 10 joined.1 ≡ ok (tt, db'))
    × (db'.focus_sessions ≡ map (settle_row (at (2000 * second)) 10) joined.1.focus_sessions)
unfolding joined
complete_elapsed_session-refines_example =
    complete_elapsed_session-refines (at (2000 * second)) 10 joined.1 (refl, tt)

history : List (Env × AuthIdentity × Call)
history =
    (at 1000, ann, Call.start 7 100)
    ∷ (at 3000, bob, Call.transition 100 8 1 join)
    ∷ (at 4000, ann, Call.note 100 9 (104 ∷ 105 ∷ []))
    ∷ (at 5000, bob, Call.current)
    ∷ []

run-Consistent_example : IsConsistent (run history paired_db).focus_sessions
unfolding history
run-Consistent_example =
    run-Consistent history paired_db (record { valid = tt; distinct = tt; one_active = tt })

noted : SessionNote × Db
unfolding joined add_note as_note note_new insert_note note_row note_of
noted = elim (add_note (at 6000) bob 100 11 (104 ∷ 105 ∷ []) joined.1) [
  | ok ((n, replayed), db) ↦ (n, db)
  | err e ↦
      (record { id = 0; account_id = 0; display_name = ""; body = []; created_at = 0 }, joined.1)
]

cheered : CheerResponse × Db
unfolding joined add_cheer as_cheer cheer_new can_cheer is_recent_cheer with_reaction reaction_row
cheered = elim (add_cheer (at 6000) ann 100 12 joined.1) [
  | ok ((c, replayed), db) ↦ (c, db)
  | err e ↦ (record { id = 0; created_at = 0 }, joined.1)
]

imported : FocusSession × Db
unfolding started import_solo_session import_new import_refused
imported =
    outcome
      (import_solo_session (at (9000 * second)) ann 13 101 (100 * second) (1600 * second) paired_db)

next_state-iff-Transition_example :
    (next_state opened none pause ≡ some (paused, some opened))
    ↔ Transition opened none pause paused (some opened)
next_state-iff-Transition_example = next_state-iff-Transition opened none pause paused (some opened)
