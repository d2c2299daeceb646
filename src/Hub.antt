-- ===== src/Hub.antt =====
-- The hub of server/internal/realtime/hub.go, which passes the cursors of new events to the open
-- sockets of a pair. The map of maps is one list of channels, each with its pair; its mutex makes
-- each operation one step; a hint taken between two sends of one Publish is taken before or after it.
-- The listener on the database is not modelled.
pub mod Laws
use along.Prelude.{
  ℕ, Bool, ◌&&◌, Option, none, some, List, [], ◌∷◌, ◌++◌, ◌==◌, ltb, length, update, delete,
  if◌then◌else◌,
}
use along.Store.Schema.{Hint}

-- A subscription: a channel of Go, with the hints that wait in it.
pub record Channel : Type 0 where
  pub id : ℕ
  pub pair_id : ℕ
  pub waiting : List Hint

abbrev pub capacity : ℕ
capacity = 8

-- Subscribe; `id` names the channel that is made.
unfoldable pub subscribe : ℕ → ℕ → List Channel → List Channel
subscribe id pair hub = hub ++ record { id = id; pair_id = pair; waiting = [] } ∷ []

-- The function that Subscribe returns.
unfoldable pub unsubscribe : ℕ → ℕ → List Channel → List Channel
unsubscribe id pair hub = delete (λ c. c.pair_id == pair && c.id == id) hub

-- A send that does not block: a full channel keeps what it has.
unfoldable pub offer : Hint → Channel → Channel
offer hint c = record c {
  waiting = if ltb (length c.waiting) capacity then c.waiting ++ hint ∷ [] else c.waiting;
}

unfoldable pub publish : Hint → List Channel → List Channel
unfolding offer
publish hint hub = update (λ c. c.pair_id == hint.pair_id) (offer hint) hub

abbrev pub rest : List Hint → List Hint
rest [] = []
rest (h ∷ hs) = hs

-- A socket takes the first hint of its channel.
unfoldable pub receive : ℕ → List Channel → List Channel
receive id hub = update (λ c. c.id == id) (λ c. record c { waiting = rest c.waiting }) hub

pub data HubStep : Type 0 where
  joins leaves : (id pair : ℕ) → HubStep
  publishes : Hint → HubStep
  receives : ℕ → HubStep

unfoldable pub run_hub : List HubStep → List Channel → List Channel
unfolding subscribe unsubscribe publish receive
run_hub [] hub = hub
run_hub (joins id pair ∷ steps) hub = run_hub steps (subscribe id pair hub)
run_hub (leaves id pair ∷ steps) hub = run_hub steps (unsubscribe id pair hub)
run_hub (publishes hint ∷ steps) hub = run_hub steps (publish hint hub)
run_hub (receives id ∷ steps) hub = run_hub steps (receive id hub)
