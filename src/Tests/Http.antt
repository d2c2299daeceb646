-- ===== src/Tests/Http.antt =====
-- A rate limiter of two requests a minute, and a request of two commands: Ann starts a session, and
-- asks for a cheer to a session that does not exist.
use along.Prelude.{
  ℕ, pos, negsuc, ◌*◌, ◌≤◌, ◌≡◌, refl, String, true, false, Option, none, some, List, [], ◌∷◌,
  arith, select, update, find, map, delete, sort_by, is_space,
}
use along.Store.Schema.{Db, Env, session_response, note_response}
use along.Store.Tx.{◌>>=◌}
use along.Store.Events.{append_pair_event, with_event, enqueue_partner_notification}
use along.Store.Idempotency.{
  as_cheer, get_idempotency, as_session, idempotent_session, save_idempotency, with_key,
}
use along.Store.Sessions.Read.{session_of, read_session, require_pair_member}
use along.Store.Sessions.Elapsed.{complete_elapsed_session}
use along.Store.Sessions.Start.{
  start_session, start_new, insert_session, insert_session_member, in_pair, or_replay, started_row,
}
use along.Store.Sessions.Care.{add_cheer, cheer_new, add_note}
use along.Store.Sessions.Queries.{
  current_session, read_found, latest_active, pair_events, events_after, last_cursor, events_limit,
}
use along.Store.Sessions.Invariant.{IsConsistent}
use along.Http.Handler.{
  Outcome, done, failed, app, call, new_error, map_error, attempt, err_not_found, err_validation,
  ◌>>=◌ as handler_then,
}
use along.Http.RateLimit.{allow, open_bucket, put_bucket, sweep, new_rate_limiter}
use along.Http.RateLimit.Bounds.{allowed, serve, allowed_le_double}
use along.Http.Sync.{
  SyncCommand, strict_payload, SyncReply, Decoders, start_id, command_kind, command_resource,
  apply_sync_command, command_result, sync_each, default_limit, checked_limit, sync,
}
use along.Http.Sync.Keeps.{sync-Consistent}
use along.Http.Sync.Laws.{sync-answers, sync-IsNews, sync_refused}
use along.Store.Sessions.News.{IsNews}
use along.Http.Sessions.{decoded, transition_handler, add_note_handler}
use along.Http.Sessions.Laws.{as_result, command_end, transition-agrees, blank_note_differs}
use along.Domain.StateMachine.{pause}
use along.Tests.Sessions.{ann, at, paired_db}

abbrev earlier : List (String × ℕ)
earlier = ("a", 1) ∷ ("b", 2) ∷ []

abbrev requests : List (String × ℕ)
requests = ("a", 50) ∷ ("a", 55) ∷ ("b", 60) ∷ ("a", 70) ∷ ("a", 80) ∷ ("a", 90) ∷ []

allowed_le_double_example : allowed "a" (serve earlier (new_rate_limiter 2 60)) requests ≤ 2 * 2
allowed_le_double_example = allowed_le_double 2 60 50 "a" earlier requests (
  (omega arith, omega arith),
  (
    (omega arith, omega arith),
    (
      (omega arith, omega arith),
      ((omega arith, omega arith), ((omega arith, omega arith), ((omega arith, omega arith), tt))),
    ),
  ),
)

-- Three of five: one in the old window, two in the new one.
allowed_runs : allowed "a" (serve earlier (new_rate_limiter 2 60)) requests ≡ 3
unfolding allowed serve new_rate_limiter allow open_bucket put_bucket sweep find delete
allowed_runs = refl

abbrev json : Decoders
json = record { times = λ raw. none; body = λ raw. some raw }

abbrev command : ℕ → String → Option ℕ → SyncCommand
command id name entity = record {
  id = id;
  command_type = name;
  entity_id = entity;
  expected_version = none;
  payload = [];
}

abbrev commands : List (Env × SyncCommand)
commands =
    (at 1000, command 7 "session.start" (some 100))
    ∷ (at 2000, command 8 "session.cheer" (some 999))
    ∷ []

sync-Consistent_example :
    IsConsistent (sync json (at 3000) ann (pos 0) (pos 0) commands paired_db).1.focus_sessions
sync-Consistent_example =
    sync-Consistent json (at 3000) ann (pos 0) (pos 0) commands paired_db
      (record { valid = tt; distinct = tt; one_active = tt })

abbrev no_reply : SyncReply
no_reply = record {
  server_time = 0;
  cursor = 0;
  events = [];
  has_more = true;
  command_results = [];
  current_session = none;
}

abbrev reply_of : Outcome SyncReply → SyncReply
reply_of (done reply) = reply
reply_of (failed f) = no_reply

synced : Outcome SyncReply × Db
unfolding sync sync_each attempt apply_sync_command command_kind command_resource command_result
    start_id default_limit checked_limit map_error new_error err_not_found handler_then ◌>>=◌
    get_idempotency find select update require_pair_member complete_elapsed_session read_session
    session_of append_pair_event enqueue_partner_notification save_idempotency with_event with_key
    add_cheer as_cheer cheer_new start_session start_new insert_session insert_session_member
    in_pair or_replay idempotent_session as_session started_row current_session latest_active
    read_found pair_events events_after last_cursor events_limit sort_by
synced = sync json (at 3000) ann (pos 0) (pos 0) commands paired_db

synced_runs : map (λ r. r.applied) (reply_of synced.0).command_results ≡ true ∷ false ∷ []
unfolding synced
synced_runs = refl

sync-answers_example : map (λ r. r.id) (reply_of synced.0).command_results ≡ 7 ∷ 8 ∷ []
unfolding synced
sync-answers_example =
    sync-answers json (at 3000) ann (pos 0) (pos 0) commands paired_db (reply_of synced.0) synced.1
      refl

sync-IsNews_example : IsNews 10 0 synced.1.pair_events (reply_of synced.0).events
unfolding synced
sync-IsNews_example =
    sync-IsNews json (at 3000) ann 0 (pos 0) commands paired_db (reply_of synced.0) synced.1 10 refl
      refl refl

-- A negative limit.
sync_refused_runs :
    sync json (at 3000) ann (pos 0) (negsuc 0) commands paired_db
    ≡ (failed (app err_validation), paired_db)
sync_refused_runs = sync_refused json (at 3000) ann (pos 0) (negsuc 0) commands paired_db refl

abbrev pause_command : SyncCommand
pause_command = record (command 9 "session.pause" (some 100)) { expected_version = some 1 }

transition-agrees_example :
    apply_sync_command json (at 4000) ann pause_command synced.1
    ≡ as_result 9 session_response
        (transition_handler (at 4000) ann (some 100) (some 9) (decoded 1) pause synced.1)
unfolding command_kind
transition-agrees_example =
    transition-agrees json (at 4000) ann pause_command refl 100 1 pause synced.1 refl refl refl

abbrev blank_command : SyncCommand
blank_command = record (command 9 "session.note" (some 100)) { payload = 32 ∷ 9 ∷ [] }

blank_note_differs_example :
    (add_note_handler (at 4000) ann (some 100) (some 9) (decoded (32 ∷ 9 ∷ [])) paired_db ≡ (
      failed (app (new_error 422 "invalid_note" "Use a note between 1 and 120 characters.")),
      paired_db,
    ))
    × (apply_sync_command json (at 4000) ann blank_command paired_db
        ≡ command_end 9 note_response
            (λ _. 201)
            (call (add_note (at 4000) ann 100 9 (32 ∷ 9 ∷ [])))
            paired_db)
unfolding command_kind is_space strict_payload
blank_note_differs_example =
    blank_note_differs json (at 4000) ann blank_command 100 (32 ∷ 9 ∷ []) paired_db refl refl refl
      refl (refl, (refl, tt)) refl
