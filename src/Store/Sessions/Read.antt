-- ===== src/Store/Sessions/Read.antt =====
-- readSession, readSessionForUpdate and requirePairMember of
-- server/internal/store/collaboration.go. Rows that ORDER BY leaves equal keep their order.
use along.Prelude.{
  ℕ, Bool, ◌&&◌, none, some, List, [], ◌∷◌, ◌==◌, leb, any, find, select, sort_by, is_none,
}
use along.Domain.Models.{FocusSession, Participant, SessionNote}
use along.Store.Result.{ok, err, not_found}
use along.Store.Schema.{Db, AccountRow, SessionRow, SessionMemberRow, NoteRow}
use along.Store.Tx.{Tx, ◌>>=◌, guard, gets, or_fail}

-- JOIN accounts a ON a.id = m.account_id
unfoldable pub participant_rows : List AccountRow → List SessionMemberRow → List Participant
participant_rows accounts [] = []
participant_rows accounts (m ∷ ms) = elim (find (λ a. a.id == m.account_id) accounts) [
  | none ↦ participant_rows accounts ms
  | some a ↦
      record { account_id = m.account_id; display_name = a.display_name; joined_at = m.joined_at }
      ∷ participant_rows accounts ms
]

-- JOIN accounts a ON a.id = n.account_id
unfoldable pub session_note_rows : List AccountRow → List NoteRow → List SessionNote
session_note_rows accounts [] = []
session_note_rows accounts (n ∷ ns) = elim (find (λ a. a.id == n.account_id) accounts) [
  | none ↦ session_note_rows accounts ns
  | some a ↦
      record {
        id = n.id;
        account_id = n.account_id;
        display_name = a.display_name;
        body = n.body;
        created_at = n.created_at;
      }
      ∷ session_note_rows accounts ns
]

participants_of : ℕ → Db → List Participant
unfolding participant_rows
participants_of id db = participant_rows db.accounts (
    sort_by (λ a b. leb a.joined_at b.joined_at)
      (select (λ m. m.session_id == id) db.session_members))

notes_of : ℕ → Db → List SessionNote
unfolding session_note_rows
notes_of id db = session_note_rows db.accounts (
    sort_by (λ a b. leb a.created_at b.created_at)
      (select (λ n. n.session_id == id) db.session_notes))

-- What readSession makes of a row.
unfoldable pub session_of : Db → SessionRow → FocusSession
unfolding participants_of notes_of
session_of db row = record {
  id = row.id;
  pair_id = row.pair_id;
  started_by = row.started_by;
  state = row.state;
  pause_origin = row.pause_origin;
  duration_seconds = row.duration_seconds;
  started_at = row.started_at;
  ends_at = row.ends_at;
  paused_at = row.paused_at;
  completed_at = row.completed_at;
  cancelled_at = row.cancelled_at;
  version = row.version;
  offline_origin = row.offline_origin;
  participants = participants_of row.id db;
  notes = notes_of row.id db;
}

unfoldable pub read_session : ℕ → Tx FocusSession
read_session id db = elim (find (λ r. r.id == id) db.focus_sessions) [
  | none ↦ err not_found
  | some row ↦ ok (session_of db row, db)
]

unfoldable pub read_session_for_update : ℕ → ℕ → Tx FocusSession
unfolding read_session
read_session_for_update id pair = do
  found ← gets λ db. find (λ r. r.id == id && r.pair_id == pair) db.focus_sessions
  row ← or_fail not_found found
  read_session row.id

-- A membership in a pair that is not dissolved.
unfoldable pub is_pair_member : ℕ → ℕ → Db → Bool
is_pair_member pair account db =
    any (λ m. m.pair_id == pair && m.account_id == account) db.pair_members
    && any (λ p. p.id == pair && is_none p.dissolved_at) db.pairs

unfoldable pub require_pair_member : ℕ → ℕ → Tx (Unit {0})
unfolding is_pair_member
require_pair_member pair account db = guard (is_pair_member pair account db) not_found db
