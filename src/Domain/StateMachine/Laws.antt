-- ===== src/Domain/StateMachine/Laws.antt =====
-- Facts about `next_state` of server/internal/domain/state_machine.go.
use along.Prelude.{◌≡◌, refl, ◌↔◌, true, Option, none, some, subst, arith}
use along.Domain.Models.{
  SessionState, opened, together, paused, completed, cancelled, expired, terminal,
}
use along.Domain.StateMachine.{
  SessionAction, join, pause, resume, complete, cancel, expire, next_state,
}

-- The states in which the timer runs.
pub data Ticks : SessionState → Type 0 where
  solo : Ticks opened
  shared : Ticks together

-- The states in which a room is live.
pub data Live : SessionState → Type 0 where
  ticking : {s : SessionState} → Ticks s → Live s
  held : Live paused

-- The transitions that the product allows, with the pause origin before and after.
pub data Transition
    : SessionState
      → Option SessionState
      → SessionAction
      → SessionState
      → Option SessionState
      → Type 0 where
  joins : {o : Option SessionState} → Transition opened o join together none
  pauses :
      {s : SessionState} {o : Option SessionState} → Ticks s → Transition s o pause paused (some s)
  resumes : {s : SessionState} → Ticks s → Transition paused (some s) resume s none
  completes :
      {s : SessionState} {o : Option SessionState} → Live s → Transition s o complete completed none
  cancels :
      {s : SessionState} {o : Option SessionState} → Live s → Transition s o cancel cancelled none
  expires :
      {s : SessionState} {o : Option SessionState} → Live s → Transition s o expire expired none

abbrev Allowed :
    SessionState
    → Option SessionState
    → SessionAction
    → Option (SessionState × Option SessionState)
    → Type 0
Allowed s o a none = Unit {0}
Allowed s o a (some (s', o')) = Transition s o a s' o'

-- One case for each action: the live states first, then the rest.
next_state-Allowed :
    (s : SessionState) (o : Option SessionState) (a : SessionAction)
    → Allowed s o a (next_state s o a)
unfolding next_state
next_state-Allowed opened o join = joins
next_state-Allowed _ o join = tt
next_state-Allowed opened o pause = pauses solo
next_state-Allowed together o pause = pauses shared
next_state-Allowed _ o pause = tt
next_state-Allowed s none resume = tt
next_state-Allowed paused (some opened) resume = resumes solo
next_state-Allowed paused (some together) resume = resumes shared
next_state-Allowed paused (some _) resume = tt
next_state-Allowed _ (some _) resume = tt
next_state-Allowed opened o complete = completes (ticking solo)
next_state-Allowed together o complete = completes (ticking shared)
next_state-Allowed paused o complete = completes held
next_state-Allowed _ o complete = tt
next_state-Allowed opened o cancel = cancels (ticking solo)
next_state-Allowed together o cancel = cancels (ticking shared)
next_state-Allowed paused o cancel = cancels held
next_state-Allowed _ o cancel = tt
next_state-Allowed opened o expire = expires (ticking solo)
next_state-Allowed together o expire = expires (ticking shared)
next_state-Allowed paused o expire = expires held
next_state-Allowed _ o expire = tt

Transition-next_state :
    {s s' : SessionState} {o o' : Option SessionState} {a : SessionAction}
    → Transition s o a s' o'
    → next_state s o a ≡ some (s', o')
unfolding next_state
Transition-next_state joins = refl
Transition-next_state (pauses solo) = refl
Transition-next_state (pauses shared) = refl
Transition-next_state (resumes solo) = refl
Transition-next_state (resumes shared) = refl
Transition-next_state (completes (ticking solo)) = refl
Transition-next_state (completes (ticking shared)) = refl
Transition-next_state (completes held) = refl
Transition-next_state (cancels (ticking solo)) = refl
Transition-next_state (cancels (ticking shared)) = refl
Transition-next_state (cancels held) = refl
Transition-next_state (expires (ticking solo)) = refl
Transition-next_state (expires (ticking shared)) = refl
Transition-next_state (expires held) = refl

-- The state machine computes exactly the transitions of the relation `Transition`: it returns a new
-- state and pause origin if and only if the relation allows them, so it errs on everything else.
pub next_state-iff-Transition :
    (s : SessionState) (o : Option SessionState) (a : SessionAction) (s' : SessionState)
    (o' : Option SessionState)
    → (next_state s o a ≡ some (s', o')) ↔ Transition s o a s' o'
next_state-iff-Transition s o a s' o' =
    (λ e. subst (Allowed s o a) e (next_state-Allowed s o a), Transition-next_state)

terminal-next_state :
    (s : SessionState) (o : Option SessionState) (a : SessionAction)
    → terminal s ≡ true
    → next_state s o a ≡ none
unfolding terminal next_state
terminal-next_state s o resume h = ground arith
terminal-next_state s o _ h = ground arith

-- The terminal states are those in which every action is refused, whatever the pause origin.
pub terminal-iff-stuck :
    (s : SessionState)
    → (terminal s ≡ true)
      ↔ ((o : Option SessionState) (a : SessionAction) → next_state s o a ≡ none)
unfolding terminal next_state
terminal-iff-stuck s = (λ h o a. terminal-next_state s o a h, λ h. ground (arith, h none cancel))

-- A pause that succeeds is undone by a resume, which restores the state and clears the origin.
pub resume-pause :
    (s : SessionState) (o : Option SessionState) {s' : SessionState} {o' : Option SessionState}
    → next_state s o pause ≡ some (s', o')
    → next_state s' o' resume ≡ some (s, none)
unfolding next_state
resume-pause s o h = ground arith
