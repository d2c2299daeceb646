-- ===== src/Store/Sessions/Replay.antt =====
-- Retries: a call that is repeated under its idempotency key is answered from the stored response.
use along.Prelude.{
  ℕ, ◌≡◌, refl, sym, subst, ◌+◌, ◌<◌, String, Bool, true, false, Option, none, some, List, [], ◌∷◌,
  ◌++◌, ◌&&◌, arith, any, find, str_eq_refl, ltb, ==_refl,
}
use mathlib.Core.Bool.{false≢true, not}
use along.Domain.Models.{AuthIdentity, FocusSession, SessionNote}
use along.Domain.StateMachine.{SessionAction}
use along.Store.Result.{StoreError, Result, ok}
use along.Store.Schema.{
  Db, Env, IdempotencyRow, Response, session_response, note_response, cheer_response, CheerResponse,
}
use along.Store.Tx.{Tx, Triple, Triple-post, Triple-bind, >>=-inv, ◌>>=◌, ◌>>◌, pure, guard}
use along.Store.Idempotency.{
  is_key, retention, get_idempotency, idempotent_session, as_session, as_note, as_cheer,
  save_idempotency, save_idempotency-saves, key_row, with_key,
}
use along.Store.Sessions.Start.{
  start_new, start_session, import_new, import_solo_session, import_refused, or_replay, in_pair,
}
use along.Store.Sessions.Transition.{operation_of, transition_new, transition_session}
use along.Store.Sessions.Care.{note_new, add_note, cheer_new, add_cheer}

-- The key answers with `response` until the retention has passed.
abbrev pub Stored : Env → ℕ → ℕ → String → Response → Db → Type 0
Stored env account key operation response db =
    (env' : Env)
    → env'.clock < env.clock + retention
    → get_idempotency env' account key operation db ≡ ok (some response, db)

find-appended :
    (env' : Env) (account key : ℕ) (rows : List IdempotencyRow) (row : IdempotencyRow)
    → any (is_key account key) rows ≡ false
    → (is_key account key row && ltb env'.clock row.expires_at) ≡ true
    → find (λ r. is_key account key r && ltb env'.clock r.expires_at) (rows ++ row ∷ []) ≡ some row
unfolding find
find-appended env' account key [] row h k = ground arith
find-appended env' account key (r ∷ rs) row h k =
    ground (arith, find-appended env' account key rs row)

with_key-Stored :
    (env : Env) (account key : ℕ) (operation : String) (response : Response) (db : Db)
    → any (is_key account key) db.idempotency_keys ≡ false
    → Stored env account key operation response (with_key env account key operation response db)
unfolding get_idempotency with_key
with_key-Stored env account key operation response db fresh env' early =
    rw
      (find-appended env' account key db.idempotency_keys
        (key_row env account key operation response) fresh
        (ground (arith, ==_refl account, ==_refl key)))
      (rw (str_eq_refl operation))

-- Nothing is asked of the database.
abbrev Anything : Db → Type 0
Anything _ = Unit {0}

anyway : {A : Type 0} (m : Tx A) → Triple Anything m (λ _. Anything)
anyway m = record { run = λ db p a db' e. tt }

-- A step before the save.
before :
    {A B : Type 0} {Q : A → Db → Type 0} (m : Tx B) (f : B → Tx A)
    → ((b : B) → Triple Anything (f b) Q)
    → Triple Anything (m >>= f) Q
before m f h = Triple-bind Anything m f (anyway m) h

module _ (env : Env) (account key : ℕ) (operation : String) (response : Response) where
  save-Stored :
      Triple Anything
        (save_idempotency env account key operation response)
        (λ _. Stored env account key operation response)
  save-Stored = record {
    run = λ db p a db' e.
        let (fresh, same) = save_idempotency-saves env account key operation response db a db' e in
        subst (Stored env account key operation response) (sym same)
          (with_key-Stored env account key operation response db fresh);
  }

-- What a call that was no replay leaves behind, for the response that it returns.
abbrev pub Answered : {A : Type 0} → Env → ℕ → ℕ → String → (A → Response) → A × Bool → Db → Type 0
Answered env account key operation respond (a, replayed) db =
    (replayed ≡ false) × Stored env account key operation (respond a) db

module _ {A : Type 0} (env : Env) (account key : ℕ) (operation : String)
    (respond : A → Response) where
  save_last :
      (a : A)
      → Triple Anything
          (save_idempotency env account key operation (respond a) >> pure (a, false))
          (Answered env account key operation respond)
  save_last a =
      Triple-bind Anything _ _ (save-Stored env account key operation (respond a))
        (λ _. Triple-post _ (λ db stored. (refl, stored)))

module _ (env : Env) (identity : AuthIdentity) where
  abbrev ByCaller : {A : Type 0} → ℕ → String → (A → Response) → A × Bool → Db → Type 0
  ByCaller = Answered env identity.account_id

  start_new-Answered :
      (pair key id : ℕ)
      → Triple Anything
          (start_new env identity pair key id)
          (ByCaller key "session.start" session_response)
  unfolding start_new
  start_new-Answered pair key id = before _ _ λ _. before _ _ λ _. before _ _ λ active.
      before _ _ λ _. before _ _ λ _. before _ _ λ _. before _ _ λ session.
        before _ _ λ cursor. before _ _ λ _. save_last env _ key _ session_response session

  import_new-Answered :
      (pair key id started_at completed_at : ℕ)
      → Triple Anything
          (import_new env identity pair key id started_at completed_at)
          (ByCaller key "session.import_solo" session_response)
  unfolding import_new
  import_new-Answered pair key id started_at completed_at = before _ _ λ _. before _ _ λ _.
      before _ _ λ _.
        before _ _ λ session. before _ _ λ cursor. save_last env _ key _ session_response session

  transition_new-Answered :
      (pair id key version : ℕ) (action : SessionAction)
      → Triple Anything
          (transition_new env identity pair id key version action)
          (ByCaller key (operation_of action) session_response)
  unfolding transition_new
  transition_new-Answered pair id key version action = before _ _ λ _. before _ _ λ current.
      before _ _ λ _. before _ _ λ next. before _ _ λ _. before _ _ λ _.
        before _ _ λ session. before _ _ λ cursor. save_last env _ key _ session_response session

  note_new-Answered :
      (pair id key : ℕ) (body : List ℕ)
      → Triple Anything
          (note_new env identity pair id key body)
          (ByCaller key "session.note" note_response)
  unfolding note_new
  note_new-Answered pair id key body = before _ _ λ _. before _ _ λ exists. before _ _ λ _.
      before _ _ λ _. before _ _ λ cursor. before _ _ λ _. save_last env _ key _ note_response _

  cheer_new-Answered :
      (pair id key : ℕ)
      → Triple Anything
          (cheer_new env identity pair id key)
          (ByCaller key "session.cheer" cheer_response)
  unfolding cheer_new
  cheer_new-Answered pair id key = before _ _ λ found. before _ _ λ row. before _ _ λ _.
      before _ _ λ recent.
        before _ _ λ _. before _ _ λ _. before _ _ λ cursor. save_last env _ key _ cheer_response _

-- A call that is no replay runs its second part.
pub or_replay-new :
    {A : Type 0} (cached : Option A) (m : Tx (A × Bool)) (db : Db) (a : A) (db' : Db)
    → or_replay cached m db ≡ ok ((a, false), db')
    → m db ≡ ok ((a, false), db')
unfolding or_replay
or_replay-new none m db a db' e = e
or_replay-new (some b) m db a db' e = absurd (false≢true (ground arith))

pub in_pair-some :
    {A : Type 0} (o : Option ℕ) (f : ℕ → Tx A) (db : Db) (a : A) (db' : Db)
    → in_pair o f db ≡ ok (a, db')
    → (pair : ℕ) × (o ≡ some pair) × (f pair db ≡ ok (a, db'))
unfolding in_pair
in_pair-some none f db a db' e = cc
in_pair-some (some pair) f db a db' e = (pair, refl, e)

pub in_pair-eq :
    {A : Type 0} {o : Option ℕ} {pair : ℕ} (f : ℕ → Tx A) {db : Db} {r : Result (A × Db)}
    → o ≡ some pair
    → f pair db ≡ r
    → in_pair o f db ≡ r
unfolding in_pair
in_pair-eq f e h = rw (e, in_pair) h

guarded :
    {A : Type 0} {b : Bool} (x : StoreError) (m : Tx A) {db : Db} {r : Result (A × Db)}
    → b ≡ false
    → m db ≡ r
    → (guard (not b) x >> m) db ≡ r
unfolding ◌>>=◌
guarded x m e h = rw e h

module _ (env env' : Env) (identity : AuthIdentity)
    (early : env'.clock < env.clock + retention) where
  session_answer :
      (key : ℕ) (operation : String) (s : FocusSession) (db : Db) (m : Tx (FocusSession × Bool))
      → Stored env identity.account_id key operation (session_response s) db
      → (idempotent_session env' identity.account_id key operation >>= λ cached. or_replay cached m)
          db
        ≡ ok ((s, true), db)
  unfolding idempotent_session as_session or_replay ◌>>=◌
  session_answer key operation s db m stored = ground (arith, stored env' early)

  -- A start that succeeded, and was no replay, is answered with the same session when the same
  -- caller repeats it under the same key within seven days, on the database that it left, whatever
  -- session id comes with it; the answer is marked as a replay and the database stays as it is.
  pub start_session-replay :
      (key id id' : ℕ) (db : Db) (s : FocusSession) (db' : Db)
      → start_session env identity key id db ≡ ok ((s, false), db')
      → start_session env' identity key id' db' ≡ ok ((s, true), db')
  unfolding start_session
  start_session-replay key id id' db s db' e =
      let (pair, p, e1) = in_pair-some _ _ db (s, false) db' e in
      let (cached, d, r, e2) = >>=-inv _ _ e1 in
      let (_, stored) =
        (start_new-Answered env identity pair key id).run d tt (s, false) db'
          (or_replay-new cached _ d s db' e2) in
      in_pair-eq _ p (session_answer key "session.start" s db' _ stored)

  -- The same for the import of a solo session, while the repeated times pass the check on them.
  pub import_solo_session-replay :
      (key id id' started_at completed_at : ℕ) (db : Db) (s : FocusSession) (db' : Db)
      → import_solo_session env identity key id started_at completed_at db ≡ ok ((s, false), db')
      → import_refused env' started_at completed_at ≡ false
      → import_solo_session env' identity key id' started_at completed_at db' ≡ ok ((s, true), db')
  unfolding import_solo_session
  import_solo_session-replay key id id' started_at completed_at db s db' e timely =
      let (pair, p, e1) = in_pair-some _ _ db (s, false) db' e in
      let (a, d, r, e2) = >>=-inv _ _ e1 in
      let (cached, d', r', e3) = >>=-inv _ _ e2 in
      let (_, stored) =
        (import_new-Answered env identity pair key id started_at completed_at).run d' tt (s, false)
          db' (or_replay-new cached _ d' s db' e3) in
      in_pair-eq _ p (guarded _ _ timely (session_answer key "session.import_solo" s db' _ stored))

  -- A transition that succeeded, and was no replay, is answered with the same session when the
  -- same caller repeats the action under the same key within seven days, on the database that it
  -- left, whatever session and version come with it; the answer is marked as a replay and the
  -- database stays as it is.
  pub transition_session-replay :
      (id id' key version version' : ℕ) (action : SessionAction) (db : Db) (s : FocusSession)
      (db' : Db)
      → transition_session env identity id key version action db ≡ ok ((s, false), db')
      → transition_session env' identity id' key version' action db' ≡ ok ((s, true), db')
  unfolding transition_session
  transition_session-replay id id' key version version' action db s db' e =
      let (pair, p, e1) = in_pair-some _ _ db (s, false) db' e in
      let (cached, d, r, e2) = >>=-inv _ _ e1 in
      let (_, stored) =
        (transition_new-Answered env identity pair id key version action).run d tt (s, false) db'
          (or_replay-new cached _ d s db' e2) in
      in_pair-eq _ p (session_answer key (operation_of action) s db' _ stored)

  -- A note that was added is answered with the same note when the same caller repeats it under the
  -- same key within seven days, whatever session and text come with it, and no second note is stored.
  pub add_note-replay :
      (id id' key : ℕ) (body body' : List ℕ) (db : Db) (n : SessionNote) (db' : Db)
      → add_note env identity id key body db ≡ ok ((n, false), db')
      → add_note env' identity id' key body' db' ≡ ok ((n, true), db')
  unfolding add_note
  add_note-replay id id' key body body' db n db' e =
      let (pair, p, e1) = in_pair-some _ _ db (n, false) db' e in
      let (response, d, r, e2) = >>=-inv _ _ e1 in
      let (cached, d', r', e3) = >>=-inv _ _ e2 in
      let (_, stored) =
        (note_new-Answered env identity pair id key body).run d' tt (n, false) db'
          (or_replay-new cached _ d' n db' e3) in
      in_pair-eq _ p (unfold as_note or_replay ◌>>=◌ in ground (arith, stored env' early))

  -- A cheer that was given is answered with the same cheer when the same caller repeats it under
  -- the same key within seven days, also during the cooldown, and no second cheer is stored.
  pub add_cheer-replay :
      (id id' key : ℕ) (db : Db) (c : CheerResponse) (db' : Db)
      → add_cheer env identity id key db ≡ ok ((c, false), db')
      → add_cheer env' identity id' key db' ≡ ok ((c, true), db')
  unfolding add_cheer
  add_cheer-replay id id' key db c db' e =
      let (pair, p, e1) = in_pair-some _ _ db (c, false) db' e in
      let (response, d, r, e2) = >>=-inv _ _ e1 in
      let (cached, d', r', e3) = >>=-inv _ _ e2 in
      let (_, stored) =
        (cheer_new-Answered env identity pair id key).run d' tt (c, false) db'
          (or_replay-new cached _ d' c db' e3) in
      in_pair-eq _ p (unfold as_cheer or_replay ◌>>=◌ in ground (arith, stored env' early))
