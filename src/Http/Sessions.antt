-- ===== src/Http/Sessions.antt =====
-- The handlers of sessions in server/internal/httpapi/collaboration_handlers.go. What decoding
-- leaves is an argument: a path parameter and a header that parse to nothing are `none`, and a body
-- that decodeJSON refuses is an error. A reply is its status, the header Idempotent-Replayed and a
-- value; `server_time` is left out.
pub mod Laws
use along.Prelude.{
  ℕ, ◌+◌, Bool, true, false, not, ◌&&◌, ◌||◌, Option, none, some, List, [], ◌∷◌, ◌==◌, leb, length,
  if◌then◌else◌, trim_space,
}
use along.Domain.Models.{AuthIdentity, FocusSession, SessionNote}
use along.Domain.StateMachine.{SessionAction}
use along.Store.Schema.{Env, CheerResponse}
use along.Store.Sessions.Start.{start_session}
use along.Store.Sessions.Care.{add_note, add_cheer}
use along.Store.Sessions.Queries.{current_session, session_history}
use along.Http.Handler.{
  AppError, new_error, err_validation, app, Handler, pure, fail, call, guard, ◌>>=◌, ◌>>◌,
}
use along.Http.Sync.{or_refuse, change_session}

-- A decoded body.
pub data Decoded (A : Type 0) : Type 0 where
  decoded : A → Decoded A
  undecoded : AppError → Decoded A

pub record Reply (A : Type 0) : Type 0 where
  pub status : ℕ
  pub replayed : Bool
  pub value : A

abbrev pub or_undecoded : {A : Type 0} → Decoded A → Handler A
or_undecoded (decoded a) = pure a
or_undecoded (undecoded e) = fail (app e)

-- idempotencyKey
unfoldable pub idempotency_key : Option ℕ → Handler ℕ
idempotency_key none =
    fail (app (new_error 400 "idempotency_key_required" "Send a UUID Idempotency-Key header."))
idempotency_key (some key) = pure key

unfoldable pub current_session_handler : Env → AuthIdentity → Handler (Reply (Option FocusSession))
current_session_handler env identity = do
  session ← call (current_session env identity)
  pure (record { status = 200; replayed = false; value = session })

-- A query parameter: absent, or present with what it parses to. A number below 0 is 0.
pub data Parameter : Type 0 where
  absent : Parameter
  present : Option ℕ → Parameter

unfoldable pub before_of : Parameter → Handler (Option ℕ)
before_of absent = pure none
before_of (present none) = fail (app err_validation)
before_of (present (some t)) = pure (some t)

unfoldable pub limit_of : Parameter → Handler ℕ
limit_of absent = pure 50
limit_of (present none) = fail (app err_validation)
limit_of (present (some n)) = do guard (leb 1 n && leb n 100) err_validation; pure n

unfoldable pub session_history_handler :
    Env → AuthIdentity → Parameter → Parameter → Handler (Reply (List FocusSession))
unfolding before_of limit_of
session_history_handler env identity before limit = do
  cutoff ← before_of before
  n ← limit_of limit
  sessions ← call (session_history env identity cutoff n)
  pure (record { status = 200; replayed = false; value = sessions })

unfoldable pub start_session_handler :
    Env → AuthIdentity → Decoded ℕ → Option ℕ → Handler (Reply FocusSession)
unfolding idempotency_key
start_session_handler env identity body header = do
  id ← or_undecoded body
  guard (not (id == 0)) err_validation
  key ← idempotency_key header
  answer ← call (start_session env identity key id)
  pure (record { status = if answer.1 then 200 else 201; replayed = answer.1; value = answer.0 })

-- The handler of every action on a session; a version below 1 is 0.
unfoldable pub transition_handler :
    Env
    → AuthIdentity
    → Option ℕ
    → Option ℕ
    → Decoded ℕ
    → SessionAction
    → Handler (Reply FocusSession)
unfolding idempotency_key change_session
transition_handler env identity path header body action = do
  id ← or_refuse path
  key ← idempotency_key header
  expected_version ← or_undecoded body
  guard (leb 1 expected_version) err_validation
  answer ← call (change_session env identity id key expected_version action)
  pure (record { status = 200; replayed = answer.1; value = answer.0 })

unfoldable pub add_note_handler :
    Env → AuthIdentity → Option ℕ → Option ℕ → Decoded (List ℕ) → Handler (Reply SessionNote)
unfolding idempotency_key trim_space
add_note_handler env identity path header body = do
  id ← or_refuse path
  key ← idempotency_key header
  text ← or_undecoded body
  guard (leb 1 (length (trim_space text)) && leb (length (trim_space text)) 120)
      (new_error 422 "invalid_note" "Use a note between 1 and 120 characters.")
  answer ← call (add_note env identity id key (trim_space text))
  pure (record { status = 201; replayed = answer.1; value = answer.0 })

unfoldable pub add_cheer_handler :
    Env → AuthIdentity → Option ℕ → Option ℕ → Decoded (Unit {0}) → Handler (Reply CheerResponse)
unfolding idempotency_key
add_cheer_handler env identity path header body = do
  id ← or_refuse path
  key ← idempotency_key header
  empty ← or_undecoded body
  answer ← call (add_cheer env identity id key)
  pure (record { status = 201; replayed = answer.1; value = answer.0 })
