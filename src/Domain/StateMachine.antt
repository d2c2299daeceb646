-- ===== src/Domain/StateMachine.antt =====
-- server/internal/domain/state_machine.go. The error's text is not modelled: `none` is an error.
pub mod Laws
use along.Prelude.{Bool, not, ◌&&◌, ◌||◌, Option, none, some, if◌then◌else◌, String}
use along.Domain.Models.{
  SessionState, opened, together, paused, completed, cancelled, expired, state_eq,
}

pub data SessionAction : Type 0 where
  join pause resume complete cancel expire : SessionAction

-- The strings of the action constants.
unfoldable pub action_name : SessionAction → String
action_name join = "join"
action_name pause = "pause"
action_name resume = "resume"
action_name complete = "complete"
action_name cancel = "cancel"
action_name expire = "expire"

abbrev is_running : SessionState → Bool
is_running s = state_eq s opened || (state_eq s together || state_eq s paused)

-- The two tests of ActionResume on the origin, a pointer that may be nil.
abbrev resume_to : SessionState → Option SessionState → Option (SessionState × Option SessionState)
resume_to current none = none
resume_to current (some origin) =
    if not (state_eq current paused)
    then none
    else if not (state_eq origin opened) && not (state_eq origin together)
    then none
    else some (origin, none)

unfoldable pub next_state :
    SessionState → Option SessionState → SessionAction → Option (SessionState × Option SessionState)
next_state current origin join =
    if not (state_eq current opened) then none else some (together, none)
next_state current origin pause =
    if not (state_eq current opened) && not (state_eq current together)
    then none
    else some (paused, some current)
next_state current origin resume = resume_to current origin
next_state current origin complete = if is_running current then some (completed, none) else none
next_state current origin cancel = if is_running current then some (cancelled, none) else none
next_state current origin expire = if is_running current then some (expired, none) else none
