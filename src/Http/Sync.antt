-- ===== src/Http/Sync.antt =====
-- POST /v1/sync: server/internal/httpapi/sync_handler.go. Decoding JSON is a parameter. The cursor
-- and the limit of a request are signed; the expected version of a command is a natural number, and
-- a negative one is 0, which the same test (`< 1`) refuses. A resource is kept as the value that it
-- encodes.
pub mod Keeps
pub mod Laws
use along.Prelude.{
  ℕ, String, Bool, true, false, not, ◌&&◌, Option, none, some, List, [], ◌∷◌, ◌==◌, leb, length,
  str_eq, ℤ, pos, negsuc, to_nat, at_least, at_most, if◌then◌else◌,
}
use along.Domain.Models.{AuthIdentity, FocusSession}
use along.Domain.StateMachine.{SessionAction, join, pause, resume, complete, cancel, expire}
use along.Store.Schema.{
  Db, Env, EventRow, Response, session_response, note_response, cheer_response,
}
use along.Store.Tx.{Tx}
use along.Store.Sessions.Start.{start_session, import_solo_session}
use along.Store.Sessions.Transition.{join_session, transition_session}
use along.Store.Sessions.Care.{add_note, add_cheer}
use along.Store.Sessions.Queries.{current_session, pair_events}
use along.Http.Handler.{
  AppError, new_error, err_validation, map_error, Failure, Outcome, done, failed, app, Handler,
  pure, fail, call, attempt, guard, ◌>>=◌, ◌>>◌,
}

-- SyncCommand; `payload` is the raw JSON.
pub record SyncCommand : Type 0 where
  pub id : ℕ
  pub command_type : String
  pub entity_id : Option ℕ
  pub expected_version : Option ℕ
  pub payload : List ℕ

pub record SyncError : Type 0 where
  pub code : String
  pub message : String

pub record SyncCommandResult : Type 0 where
  pub id : ℕ
  pub applied : Bool
  pub resource : Option Response
  pub error : Option SyncError

-- json.Unmarshal into the two types of payloads: the times of a session, and the text of a note as
-- code points.
pub record Decoders : Type 0 where
  pub times : List ℕ → Option (ℕ × ℕ)
  pub body : List ℕ → Option (List ℕ)

-- The cases of the switch on the type of a command.
pub data CommandKind : Type 0 where
  start import_solo note cheer unsupported : CommandKind
  act : SessionAction → CommandKind

unfoldable pub command_kind : String → CommandKind
command_kind name =
    if str_eq name "session.start"
    then start
    else if str_eq name "session.import_solo"
    then import_solo
    else if str_eq name "session.join"
    then act join
    else if str_eq name "session.pause"
    then act pause
    else if str_eq name "session.resume"
    then act resume
    else if str_eq name "session.complete"
    then act complete
    else if str_eq name "session.cancel"
    then act cancel
    else if str_eq name "session.note"
    then note
    else if str_eq name "session.cheer"
    then cheer
    else unsupported

-- The session id of a start: the given one, or a new one.
unfoldable pub start_id : Env → Option ℕ → ℕ
start_id env none = env.uuid 9
start_id env (some id) = if id == 0 then env.uuid 9 else id

abbrev pub or_refuse : {A : Type 0} → Option A → Handler A
or_refuse none = fail (app err_validation)
or_refuse (some a) = pure a

unfoldable pub strict_payload : {A : Type 0} → (List ℕ → Option A) → List ℕ → Handler A
strict_payload decode [] = fail (app err_validation)
strict_payload decode (b ∷ bs) = or_refuse (decode (b ∷ bs))

-- JoinSession for a join, TransitionSession for the other actions.
unfoldable pub change_session :
    Env → AuthIdentity → ℕ → ℕ → ℕ → SessionAction → Tx (FocusSession × Bool)
change_session env identity id key version join = join_session env identity id key version
change_session env identity id key version pause =
    transition_session env identity id key version pause
change_session env identity id key version resume =
    transition_session env identity id key version resume
change_session env identity id key version complete =
    transition_session env identity id key version complete
change_session env identity id key version cancel =
    transition_session env identity id key version cancel
change_session env identity id key version expire =
    transition_session env identity id key version expire

-- The bodies of the switch.
unfoldable pub command_resource :
    Decoders → Env → AuthIdentity → SyncCommand → CommandKind → Handler Response
unfolding start_id strict_payload change_session
command_resource json env identity c start = do
  answer ← call (start_session env identity c.id (start_id env c.entity_id))
  pure (session_response answer.0)
command_resource json env identity c import_solo = do
  id ← or_refuse c.entity_id
  guard (not (id == 0)) err_validation
  times ← strict_payload json.times c.payload
  answer ← call (import_solo_session env identity c.id id times.0 times.1)
  pure (session_response answer.0)
command_resource json env identity c (act action) = do
  id ← or_refuse c.entity_id
  version ← or_refuse c.expected_version
  guard (leb 1 version) err_validation
  answer ← call (change_session env identity id c.id version action)
  pure (session_response answer.0)
command_resource json env identity c note = do
  id ← or_refuse c.entity_id
  body ← strict_payload json.body c.payload
  guard (leb 1 (length body) && leb (length body) 120) err_validation
  answer ← call (add_note env identity id c.id body)
  pure (note_response answer.0)
command_resource json env identity c cheer = do
  id ← or_refuse c.entity_id
  answer ← call (add_cheer env identity id c.id)
  pure (cheer_response answer.0)
command_resource json env identity c unsupported =
    fail (app (new_error 422 "unsupported_command" "This command type is not supported."))

unfoldable pub apply_sync_command :
    Decoders → Env → AuthIdentity → SyncCommand → Handler SyncCommandResult
unfolding command_kind command_resource
apply_sync_command json env identity c = do
  guard (not (c.id == 0)) (new_error 422 "invalid_command" "Each command needs a stable UUID.")
  resource ← command_resource json env identity c (command_kind c.command_type)
  pure (record { id = c.id; applied = true; resource = some resource; error = none })

-- The result of a command that failed; an internal error ends the request.
unfoldable pub command_result : ℕ → Outcome SyncCommandResult → Handler SyncCommandResult
command_result id (done result) = pure result
command_result id (failed f) =
    let e = map_error f in
    if leb 500 e.status
    then fail f
    else pure (record {
      id = id;
      applied = false;
      resource = none;
      error = some (record { code = e.code; message = e.message });
    })

-- The loop over the commands, each with the clocks that it meets.
unfoldable pub sync_each :
    Decoders → AuthIdentity → List (Env × SyncCommand) → Handler (List SyncCommandResult)
unfolding apply_sync_command command_result
sync_each json identity [] = pure []
sync_each json identity ((env, c) ∷ rest) = do
  outcome ← attempt (apply_sync_command json env identity c)
  result ← command_result c.id outcome
  results ← sync_each json identity rest
  pure (result ∷ results)

-- The response.
pub record SyncReply : Type 0 where
  pub server_time : ℕ
  pub cursor : ℕ
  pub events : List EventRow
  pub has_more : Bool
  pub command_results : List SyncCommandResult
  pub current_session : Option FocusSession

-- A limit of 0 stands for 200.
unfoldable pub default_limit : ℤ → ℤ
default_limit (pos limit) = if limit == 0 then pos 200 else pos limit
default_limit (negsuc n) = negsuc n

-- The limit that passes the test between 1 and 500.
unfoldable pub checked_limit : ℤ → Handler ℕ
unfolding default_limit
checked_limit given = do
  let limit = default_limit given
  guard (at_least 1 limit && at_most 500 limit) err_validation
  pure (to_nat limit)

unfoldable pub sync :
    Decoders → Env → AuthIdentity → ℤ → ℤ → List (Env × SyncCommand) → Handler SyncReply
unfolding sync_each checked_limit
sync json env identity cursor given commands = do
  guard (at_least 0 cursor && leb (length commands) 100) err_validation
  limit ← checked_limit given
  results ← sync_each json identity commands
  current ← call (current_session env identity)
  page ← λ db. (done (pair_events identity (to_nat cursor) limit db), db)
  pure (record {
    server_time = env.now;
    cursor = page.1;
    events = page.0;
    has_more = length page.0 == limit;
    command_results = results;
    current_session = current;
  })
