-- ===== src/Store/Sessions/Queries.antt =====
-- CurrentSession, SessionHistory and PairEvents of server/internal/store/collaboration.go, each as one
-- step: the first is a transaction of the default isolation and the others open none, and what other
-- calls do between their statements is not modelled.
use along.Prelude.{
  ℕ, ◌+◌, Bool, false, ◌&&◌, ◌||◌, Option, none, some, List, [], ◌∷◌, map, ◌==◌, ltb, leb, take,
  select, sort_by, if◌then◌else◌,
}
use along.Domain.Models.{AuthIdentity, FocusSession, completed, state_eq, minute}
use along.Store.Schema.{Db, Env, SessionRow, EventRow}
use along.Store.Tx.{Tx, ◌>>=◌, ◌>>◌, pure, gets}
use along.Store.Sessions.Read.{read_session}
use along.Store.Sessions.Elapsed.{complete_elapsed_session}
use along.Store.Sessions.Start.{is_active_in}

abbrev first {ℓ} : {A : Type ℓ} → List A → Option A
first [] = none
first (x ∷ xs) = some x

unfoldable pub read_found : Option SessionRow → Tx (Option FocusSession)
read_found none = pure none
read_found (some row) = do session ← read_session row.id; pure (some session)

-- ORDER BY started_at DESC LIMIT 1
unfoldable pub latest_active : ℕ → Db → Option SessionRow
latest_active pair db =
    first (
      sort_by (λ a b. leb b.started_at a.started_at) (select (is_active_in pair) db.focus_sessions))

unfoldable pub current_in : Env → Option ℕ → Tx (Option FocusSession)
current_in env none = pure none
current_in env (some pair) = do
  complete_elapsed_session env pair
  found ← gets (latest_active pair)
  read_found found

unfoldable pub current_session : Env → AuthIdentity → Tx (Option FocusSession)
unfolding current_in
current_session env identity = current_in env identity.pair_id

-- The limit that is used, where the given one is out of range.
unfoldable pub history_limit : ℕ → ℕ
history_limit limit = if ltb limit 1 || ltb 100 limit then 50 else limit

unfoldable pub cutoff_of : Env → Option ℕ → ℕ
cutoff_of env none = env.now + minute
cutoff_of env (some before) = before

abbrev completed_before : ℕ → Option ℕ → Bool
completed_before cutoff none = false
completed_before cutoff (some t) = ltb t cutoff

unfoldable pub in_history : ℕ → ℕ → SessionRow → Bool
in_history pair cutoff r =
    r.pair_id == pair && state_eq r.state completed && completed_before cutoff r.completed_at

abbrev finish : Option ℕ → ℕ
finish none = 0
finish (some t) = t

-- completed_at DESC, id DESC
unfoldable pub later_first : SessionRow → SessionRow → Bool
later_first a b =
    ltb (finish b.completed_at) (finish a.completed_at)
    || (finish a.completed_at == finish b.completed_at && leb b.id a.id)

unfoldable pub read_each : List ℕ → Tx (List FocusSession)
read_each [] = pure []
read_each (id ∷ ids) = do session ← read_session id; rest ← read_each ids; pure (session ∷ rest)

history_in : Env → Option ℕ → Option ℕ → ℕ → Tx (List FocusSession)
unfolding history_limit cutoff_of in_history later_first read_each
history_in env none before limit = pure []
history_in env (some pair) before limit = do
  ids ← gets λ db.
      map (λ r. r.id)
        (take (history_limit limit)
          (sort_by later_first (select (in_history pair (cutoff_of env before)) db.focus_sessions)))
  read_each ids

unfoldable pub session_history : Env → AuthIdentity → Option ℕ → ℕ → Tx (List FocusSession)
unfolding history_in
session_history env identity before limit = history_in env identity.pair_id before limit

unfoldable pub events_limit : ℕ → ℕ
events_limit limit = if ltb limit 1 || ltb 500 limit then 200 else limit

-- `next = event.Cursor` for each event of the loop.
unfoldable pub last_cursor : ℕ → List EventRow → ℕ
last_cursor next [] = next
last_cursor next (e ∷ es) = last_cursor e.cursor es

unfoldable pub events_after : ℕ → ℕ → Db → List EventRow
events_after pair cursor db =
    sort_by (λ a b. leb a.cursor b.cursor)
      (select (λ e. e.pair_id == pair && ltb cursor e.cursor) db.pair_events)

events_in : Option ℕ → ℕ → ℕ → Db → List EventRow × ℕ
unfolding events_limit last_cursor events_after
events_in none cursor limit db = ([], cursor)
events_in (some pair) cursor limit db =
    let events = take (events_limit limit) (events_after pair cursor db) in
    (events, last_cursor cursor events)

unfoldable pub pair_events : AuthIdentity → ℕ → ℕ → Db → List EventRow × ℕ
unfolding events_in
pair_events identity cursor limit db = events_in identity.pair_id cursor limit db
