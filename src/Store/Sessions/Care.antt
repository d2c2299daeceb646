-- ===== src/Store/Sessions/Care.antt =====
-- AddNote and AddCheer of server/internal/store/collaboration.go.
use along.Prelude.{
  ℕ, ◌+◌, ◌*◌, Bool, false, not, ◌&&◌, ◌||◌, some, List, [], ◌∷◌, ◌++◌, ◌==◌, ltb, leb, any, find,
  length, if◌then◌else◌,
}
use along.Domain.Models.{
  AuthIdentity, SessionNote, SessionState, together, paused, cancelled, state_eq, second,
}
use along.Store.Result.{ok, err, not_found, conflict, cooldown, check_violation}
use along.Store.Schema.{
  Env, NoteRow, ReactionRow, CheerResponse, Alert, note_payload, cheer_payload, note_response,
  cheer_response,
}
use along.Store.Tx.{Tx, ◌>>=◌, ◌>>◌, pure, gets, guard, modify, or_fail}
use along.Store.Events.{append_pair_event, enqueue_partner_notification}
use along.Store.Idempotency.{get_idempotency, as_note, as_cheer, save_idempotency}
use along.Store.Sessions.Read.{require_pair_member}
use along.Store.Sessions.Start.{or_replay, in_pair}

-- The CHECK on char_length(body). A drawn UUID is taken to be new.
unfoldable pub insert_note : NoteRow → Tx (Unit {0})
insert_note row db =
    if leb 1 (length row.body) && leb (length row.body) 120
    then ok (tt, record db { session_notes = db.session_notes ++ row ∷ [] })
    else err check_violation

abbrev partner_note_alert : Alert
partner_note_alert = record {
  title = "Along";
  body = "Your partner left a note.";
  deep_link = "along:///look-back";
}

unfoldable pub note_row : Env → ℕ → ℕ → List ℕ → NoteRow
note_row env session account body = record {
  id = env.uuid 0;
  session_id = session;
  account_id = account;
  body = body;
  created_at = env.clock;
}

unfoldable pub note_of : Env → AuthIdentity → List ℕ → SessionNote
note_of env identity body = record {
  id = env.uuid 0;
  account_id = identity.account_id;
  display_name = identity.display_name;
  body = body;
  created_at = env.clock;
}

-- AddNote after the replay of a stored response is ruled out.
unfoldable pub note_new : Env → AuthIdentity → ℕ → ℕ → ℕ → List ℕ → Tx (SessionNote × Bool)
unfolding note_row note_of
note_new env identity pair id key body = do
  require_pair_member pair identity.account_id
  exists ← gets λ db.
      any (λ r. r.id == id && r.pair_id == pair && not (state_eq r.state cancelled))
        db.focus_sessions
  guard exists not_found
  insert_note (note_row env id identity.account_id body)
  cursor ←
      append_pair_event env pair "session.note_added" (some id) (some identity.account_id)
        (note_payload (note_of env identity body))
  enqueue_partner_notification env pair identity.account_id cursor "partner_note" partner_note_alert
  save_idempotency env identity.account_id key "session.note"
      (note_response (note_of env identity body))
  pure (note_of env identity body, false)

unfoldable pub add_note : Env → AuthIdentity → ℕ → ℕ → List ℕ → Tx (SessionNote × Bool)
add_note env identity id key body = in_pair identity.pair_id λ pair. do
  response ← get_idempotency env identity.account_id key "session.note"
  cached ← as_note response
  or_replay cached (note_new env identity pair id key body)

-- created_at > clock_timestamp() - interval '30 seconds'
unfoldable pub is_recent_cheer : Env → ℕ → ℕ → ReactionRow → Bool
is_recent_cheer env session account r =
    r.session_id == session && r.account_id == account && ltb env.clock (r.created_at + 30 * second)

unfoldable pub can_cheer : SessionState → Bool
can_cheer state = state_eq state together || state_eq state paused

unfoldable pub reaction_row : Env → ℕ → ℕ → ReactionRow
reaction_row env session account = record {
  id = env.uuid 0;
  session_id = session;
  account_id = account;
  created_at = env.clock;
}

-- INSERT INTO reactions
unfoldable pub with_reaction : ReactionRow → Tx (Unit {0})
with_reaction row = modify λ db. record db { reactions = db.reactions ++ row ∷ [] }

-- AddCheer after the replay of a stored response is ruled out.
unfoldable pub cheer_new : Env → AuthIdentity → ℕ → ℕ → ℕ → Tx (CheerResponse × Bool)
unfolding reaction_row can_cheer
cheer_new env identity pair id key = do
  found ← gets λ db. find (λ r. r.id == id && r.pair_id == pair) db.focus_sessions
  row ← or_fail not_found found
  guard (can_cheer row.state) conflict
  recent ← gets λ db. any (is_recent_cheer env id identity.account_id) db.reactions
  guard (not recent) cooldown
  with_reaction (reaction_row env id identity.account_id)
  let response : CheerResponse = record { id = env.uuid 0; created_at = env.clock }
  cursor ←
      append_pair_event env pair "session.cheered" (some id) (some identity.account_id)
        (cheer_payload response)
  save_idempotency env identity.account_id key "session.cheer" (cheer_response response)
  pure (response, false)

unfoldable pub add_cheer : Env → AuthIdentity → ℕ → ℕ → Tx (CheerResponse × Bool)
add_cheer env identity id key = in_pair identity.pair_id λ pair. do
  response ← get_idempotency env identity.account_id key "session.cheer"
  cached ← as_cheer response
  or_replay cached (cheer_new env identity pair id key)
