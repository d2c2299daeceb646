-- ===== src/Store/Sessions/Effects.antt =====
-- What a transition that is not a replay has checked and done, read off its code.
use along.Prelude.{
  ℕ, ◌≡◌, refl, sym, ap, subst, ◌∙◌, Bool, true, false, ◌||◌, ◌&&◌, Option, none, some, find,
  update, any, arith, ◌==◌, ltb, is_some, Option-cases, inl, inr, find-holds, find-update, any-find,
}
use mathlib.Core.Bool.{false≢true}
use along.Domain.Models.{SessionState, AuthIdentity, FocusSession}
use along.Domain.StateMachine.{
  SessionAction, join, pause, resume, complete, cancel, expire, next_state,
}
use mathlib.Core.Path.{ap₂}
use along.Store.Result.{StoreError, ok, conflict, version_mismatch}
use along.Store.Schema.{Db, Env, SessionRow, session_payload, session_response}
use along.Store.Tx.{Tx, >>=-inv, ◌>>=◌, ◌>>◌, pure, guard, or_fail}
use along.Store.Sessions.Read.{
  read_session, read_session_for_update, require_pair_member, session_of, is_pair_member,
}
use along.Store.Sessions.Reads.{read_session_for_update-Reads, require_pair_member-Reads}
use along.Store.Sessions.Elapsed.{update_session}
use along.Store.Sessions.Elapsed.Sweep.{is_row}
use along.Store.Sessions.Transition.{
  apply_action, before_action, transition_new, event_type_of, operation_of,
}
use along.Store.Sessions.Start.{insert_session_member}
use along.Store.Events.{append_pair_event, with_event}
use along.Store.Idempotency.{save_idempotency, save_idempotency-saves, with_key}

-- readSessionForUpdate finds the row of the pair, and reads by its id.
read_for_update-finds :
    (id pair : ℕ) (db : Db) (s : FocusSession) (db' : Db)
    → read_session_for_update id pair db ≡ ok (s, db')
    → (row : SessionRow) × (find (is_row id) db.focus_sessions ≡ some row) × (s ≡ session_of db row)
unfolding read_session_for_update read_session ◌>>=◌
read_for_update-finds id pair db s db' e =
    elim (Option-cases (find (λ r. r.id == id && r.pair_id == pair) db.focus_sessions)) [
      | inl missing ↦ absurd (false≢true (ground arith))
      | inr (r, found) ↦
          let same : r.id ≡ id =
            ground (
              arith,
              find-holds (λ x. x.id == id && x.pair_id == pair) db.focus_sessions r found,
            ) in
          let read : read_session id db ≡ ok (s, db') =
            subst (λ n. read_session n db ≡ ok (s, db')) same (ground arith) in
          elim (Option-cases (find (is_row id) db.focus_sessions)) [
            | inl missing ↦ absurd (false≢true (ground arith))
            | inr (row, hit) ↦ (row, hit, ground arith)
          ]
    ]

read_for_update-holds :
    (id pair : ℕ) (db : Db) (s : FocusSession) (db' : Db)
    → read_session_for_update id pair db ≡ ok (s, db')
    → any (λ r. r.id == id && r.pair_id == pair) db.focus_sessions ≡ true
unfolding read_session_for_update ◌>>=◌
read_for_update-holds id pair db s db' e =
    ground (arith, any-find (λ r. r.id == id && r.pair_id == pair) db.focus_sessions)

-- What the action asks of the session beyond the state machine.
abbrev pub Checked : SessionAction → ℕ → ℕ → SessionRow → Type 0
Checked join account now r = (r.started_by == account || ltb r.ends_at now) ≡ false
Checked resume account now r = is_some r.paused_at ≡ true
Checked _ account now r = Unit {0}

-- The row that the transition worked on, and what became of it.
pub record Transitioned (env : Env) (identity : AuthIdentity) (pair id expected_version : ℕ)
    (action : SessionAction) (db : Db) (s : FocusSession) (replayed : Bool) (db' : Db)
    : Type 0 where
  pub row : SessionRow
  pub next : SessionState × Option SessionState
  pub member : is_pair_member pair identity.account_id db ≡ true
  pub found : find (is_row id) db.focus_sessions ≡ some row
  pub held : any (λ r. r.id == id && r.pair_id == pair) db.focus_sessions ≡ true
  pub version : row.version ≡ expected_version
  pub allowed : next_state row.state row.pause_origin action ≡ some next
  pub checked : Checked action identity.account_id env.now row
  pub rows :
      db'.focus_sessions
      ≡ update (is_row id) (apply_action action next.0 next.1 env.now) db.focus_sessions
  pub seen : Db
  pub result : s ≡ session_of seen (apply_action action next.0 next.1 env.now row)
  pub fresh : replayed ≡ false

before_action-Checked :
    (env : Env) (identity : AuthIdentity) (id : ℕ) (current : FocusSession) (row : SessionRow)
    (action : SessionAction) (seen db : Db) (a : Unit {0}) (db' : Db)
    → current ≡ session_of seen row
    → before_action env identity id current action db ≡ ok (a, db')
    → Checked action identity.account_id env.now row
unfolding before_action session_of ◌>>=◌
before_action-Checked env identity id current row join seen db a db' c e = ground arith
before_action-Checked env identity id current row resume seen db a db' c e = ground arith
before_action-Checked env identity id current row _ seen db a db' c e = tt

before_action-rows :
    (env : Env) (identity : AuthIdentity) (id : ℕ) (current : FocusSession) (action : SessionAction)
    (db : Db) (a : Unit {0}) (db' : Db)
    → before_action env identity id current action db ≡ ok (a, db')
    → db'.focus_sessions ≡ db.focus_sessions
unfolding before_action insert_session_member ◌>>=◌
before_action-rows env identity id current join db a db' e = ground arith
before_action-rows env identity id current _ db a db' e = ground arith

require_pair_member-holds :
    (pair account : ℕ) (db : Db) (a : Unit {0}) (db' : Db)
    → require_pair_member pair account db ≡ ok (a, db')
    → is_pair_member pair account db ≡ true
unfolding require_pair_member
require_pair_member-holds pair account db a db' e = ground arith

or_fail-some :
    {A : Type 0} (x : StoreError) (o : Option A) (db : Db) (a : A) (db' : Db)
    → or_fail x o db ≡ ok (a, db')
    → o ≡ some a
or_fail-some x none db a db' e = cc
or_fail-some x (some b) db a db' e = cc

-- The statements that follow the checks.
module _ (env : Env) (identity : AuthIdentity) (pair id key : ℕ) (action : SessionAction)
    (next : SessionState × Option SessionState) where
  abbrev change : SessionRow → SessionRow
  change = apply_action action next.0 next.1 env.now

  abbrev write_transition : Tx (FocusSession × Bool)
  write_transition = do
    update_session id change
    session ← read_session id
    cursor ←
        append_pair_event env pair (event_type_of action) (some id) (some identity.account_id)
          (session_payload session)
    save_idempotency env identity.account_id key (operation_of action) (session_response session)
    pure (session, false)

  pub change-id : (r : SessionRow) → (change r).id ≡ r.id
  unfolding apply_action
  change-id r = elim action as (λ a. (apply_action a next.0 next.1 env.now r).id ≡ r.id) [
    | join ↦ refl
    | pause ↦ refl
    | resume ↦ refl
    | complete ↦ refl
    | cancel ↦ refl
    | expire ↦ refl
  ]

  changed : Db → Db
  changed db = record db { focus_sessions = update (is_row id) change db.focus_sessions }

  -- Everything but the save goes through, since the row is there.
  write_transition-runs :
      (db : Db) (row : SessionRow)
      → find (is_row id) db.focus_sessions ≡ some row
      → write_transition db
        ≡ (do
          save_idempotency env identity.account_id key
              (operation_of action)
              (session_response (session_of (changed db) (change row)))
          pure (session_of (changed db) (change row), false))
            (with_event env pair
              (event_type_of action)
              (some id)
              (some identity.account_id)
              (session_payload (session_of (changed db) (change row)))
              (changed db))
  unfolding update_session read_session append_pair_event ◌>>=◌ changed
  write_transition-runs db row found =
      let hit =
        find-update (is_row id) change (λ r. ap (λ (n : ℕ). n == id) (change-id r))
          db.focus_sessions row found in
      ground arith

  -- What it leaves behind.
  record Writes (db : Db) (row : SessionRow) (s : FocusSession) (replayed : Bool) (db' : Db)
      : Type 0 where
    pub rows : db'.focus_sessions ≡ update (is_row id) change db.focus_sessions
    pub fresh : replayed ≡ false
    pub result : s ≡ session_of (changed db) (change row)

  write_transition-Writes :
      (db : Db) (row : SessionRow) (s : FocusSession) (replayed : Bool) (db' : Db)
      → find (is_row id) db.focus_sessions ≡ some row
      → write_transition db ≡ ok ((s, replayed), db')
      → Writes db row s replayed db'
  unfolding with_event with_key changed
  write_transition-Writes db row s replayed db' found e =
      let (a, d, saved, done) = >>=-inv _ _ (sym (write_transition-runs db row found) ∙ e) in
      let (new, same) = save_idempotency-saves _ _ _ _ _ _ a d saved in
      record { rows = ground arith; fresh = ground arith; result = ground arith }

module _ (env : Env) (identity : AuthIdentity) (pair id key expected_version : ℕ)
    (action : SessionAction) where
  -- The parts of a successful run, put together.
  assemble :
      (db d1 d2 d3 d4 d5 db' : Db) (a1 a3 a5 : Unit {0}) (current s : FocusSession)
      (next : SessionState × Option SessionState) (replayed : Bool)
      → require_pair_member pair identity.account_id db ≡ ok (a1, d1)
      → read_session_for_update id pair d1 ≡ ok (current, d2)
      → guard (current.version == expected_version) version_mismatch d2 ≡ ok (a3, d3)
      → or_fail conflict (next_state current.state current.pause_origin action) d3 ≡ ok (next, d4)
      → before_action env identity id current action d4 ≡ ok (a5, d5)
      → write_transition env identity pair id key action next d5 ≡ ok ((s, replayed), db')
      → Transitioned env identity pair id expected_version action db s replayed db'
  assemble db d1 d2 d3 d4 d5 db' a1 a3 a5 current s next replayed r1 r2 r3 r4 r5 r6 =
      let same1 = require_pair_member-Reads pair identity.account_id db a1 d1 r1 in
      let same2 = read_session_for_update-Reads id pair d1 current d2 r2 in
      let same3 : d3 ≡ d2 = ground arith in
      let same4 : d4 ≡ d3 = ground arith in
      let (row, found, read) = read_for_update-finds id pair d1 current d2 r2 in
      let version : current.version ≡ row.version = unfold session_of in ap (λ x. x.version) read in
      let state : current.state ≡ row.state = unfold session_of in ap (λ x. x.state) read in
      let origin : current.pause_origin ≡ row.pause_origin =
        unfold session_of in ap (λ x. x.pause_origin) read in
      let rows5 = before_action-rows env identity id current action d4 a5 d5 r5 in
      let found5 : find (is_row id) d5.focus_sessions ≡ some row = ground arith in
      let writes =
        write_transition-Writes env identity pair id key action next d5 row s replayed db' found5
          r6 in
      record {
        row = row;
        next = next;
        member = require_pair_member-holds pair identity.account_id db a1 d1 r1;
        found = ground arith;
        held =
            subst (λ d. any (λ r. r.id == id && r.pair_id == pair) d.focus_sessions ≡ true) same1
              (read_for_update-holds id pair d1 current d2 r2);
        version = ground arith;
        allowed =
            ap₂ (λ x o. next_state x o action) (sym state) (sym origin)
            ∙ or_fail-some conflict _ d3 next d4 r4;
        checked = before_action-Checked env identity id current row action d1 d4 a5 d5 read r5;
        rows =
            writes.rows
            ∙ ap (update (is_row id) (apply_action action next.0 next.1 env.now)) (ground arith);
        seen = changed env identity pair id key action next d5;
        result = writes.result;
        fresh = writes.fresh;
      }

  pub transition_new-Transitioned :
      (db : Db) (s : FocusSession) (replayed : Bool) (db' : Db)
      → transition_new env identity pair id key expected_version action db ≡ ok ((s, replayed), db')
      → Transitioned env identity pair id expected_version action db s replayed db'
  unfolding transition_new
  transition_new-Transitioned db s replayed db' e =
      let (a1, d1, r1, e1) = >>=-inv _ _ e in
      let (current, d2, r2, e2) = >>=-inv _ _ e1 in
      let (a3, d3, r3, e3) = >>=-inv _ _ e2 in
      let (next, d4, r4, e4) = >>=-inv _ _ e3 in
      let (a5, d5, r5, e5) = >>=-inv _ _ e4 in
      assemble db d1 d2 d3 d4 d5 db' a1 a3 a5 current s next replayed r1 r2 r3 r4 r5 e5
