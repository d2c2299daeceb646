-- ===== src/Store/Sessions/Versions.antt =====
-- Optimistic concurrency: the version of a session and what a transition does to the table.
use along.Prelude.{
  ℕ, ◌≡◌, refl, sym, subst, ap, ◌∙◌, ◌+◌, true, false, Option, none, some, ◌&&◌, arith, any, find,
  find-update, select, select-update-not, not, any-update, find-of-any, find-holds, ◌==◌,
}
use mathlib.Core.Path.{ap₂}
use along.Domain.Models.{AuthIdentity, FocusSession, SessionState}
use along.Domain.StateMachine.{SessionAction, join, resume, next_state}
use along.Store.Result.{ok, err, version_mismatch}
use along.Store.Schema.{Db, Env, SessionRow}
use along.Store.Tx.{>>=-inv, ◌>>=◌}
use along.Store.Idempotency.{idempotent_session}
use along.Store.Sessions.Start.{or_replay}
use along.Store.Sessions.Read.{
  session_of, read_session, read_session_for_update, require_pair_member, is_pair_member,
}
use along.Store.Sessions.Elapsed.Sweep.{is_row}
use along.Store.Sessions.Transition.{apply_action, operation_of, transition_new, transition_session}
use along.Store.Sessions.Effects.{Transitioned, transition_new-Transitioned, change-id}
use along.Store.Sessions.Reads.{idempotent_session-Reads}
use along.Store.Sessions.Replay.{in_pair-some, in_pair-eq, or_replay-new}

-- A transition of the caller's pair that was no replay.
abbrev pub Ran : Env → AuthIdentity → ℕ → ℕ → SessionAction → Db → FocusSession → Db → Type 0
Ran env identity id version action db s db' =
    (pair : ℕ) × (identity.pair_id ≡ some pair)
    × Transitioned env identity pair id version action db s false db'

pub transition_session-Ran :
    (env : Env) (identity : AuthIdentity) (id key version : ℕ) (action : SessionAction) (db : Db)
    (s : FocusSession) (db' : Db)
    → transition_session env identity id key version action db ≡ ok ((s, false), db')
    → Ran env identity id version action db s db'
unfolding transition_session
transition_session-Ran env identity id key version action db s db' e =
    let (pair, p, e1) = in_pair-some _ _ db (s, false) db' e in
    let (cached, d, r, e2) = >>=-inv _ _ e1 in
    let same = idempotent_session-Reads env _ key _ db cached d r in
    (
      pair,
      p,
      subst (λ x. Transitioned env identity pair id version action x s false db') same
          (transition_new-Transitioned env identity pair id key version action d s false db'
            (or_replay-new cached _ d s db' e2)),
    )

apply_action-version :
    (action : SessionAction) (s' : SessionState) (o : Option SessionState) (now : ℕ)
    (r : SessionRow)
    → (apply_action action s' o now r).version ≡ r.version + 1
unfolding apply_action
apply_action-version join s' o now r = refl
apply_action-version _ s' o now r = refl

-- The state that the UPDATE writes is the one that the state machine returned.
apply_action-state :
    (action : SessionAction) (s' : SessionState) (o : Option SessionState) (now : ℕ)
    (r : SessionRow)
    → next_state r.state r.pause_origin action ≡ some (s', o)
    → (apply_action action s' o now r).state ≡ s'
unfolding apply_action next_state
apply_action-state join s' o now r e = refl
apply_action-state resume s' o now r e = refl
apply_action-state _ s' o now r e = ground arith

apply_action-pair_id :
    (action : SessionAction) (s' : SessionState) (o : Option SessionState) (now : ℕ)
    (r : SessionRow)
    → (apply_action action s' o now r).pair_id ≡ r.pair_id
unfolding apply_action
apply_action-pair_id join s' o now r = refl
apply_action-pair_id _ s' o now r = refl

-- What a versioned update promises about the table of sessions.
pub record Updates (id version : ℕ) (action : SessionAction) (db : Db) (s : FocusSession) (db' : Db)
    : Type 0 where
  pub old : SessionRow
  pub new : SessionRow
  pub was : find (is_row id) db.focus_sessions ≡ some old
  pub is : find (is_row id) db'.focus_sessions ≡ some new
  pub expected : old.version ≡ version
  pub next : new.version ≡ version + 1
  pub allowed :
      (o : Option SessionState) × (next_state old.state old.pause_origin action
        ≡ some (new.state, o))
  pub seen : (s.version ≡ new.version) × (s.state ≡ new.state) × (s.ends_at ≡ new.ends_at)
  pub others :
      select (λ r. not (is_row id r)) db'.focus_sessions
      ≡ select (λ r. not (is_row id r)) db.focus_sessions

module _ (env : Env) (identity : AuthIdentity) (id key version : ℕ) (action : SessionAction) where
  -- A transition that succeeds, and is no replay, found the session at the expected version, moved
  -- its state as the state machine says, raised its version by one, returned the new version, state
  -- and end, and left every other session as it was.
  pub transition_session-Updates :
      (db : Db) (s : FocusSession) (db' : Db)
      → transition_session env identity id key version action db ≡ ok ((s, false), db')
      → Updates id version action db s db'
  transition_session-Updates db s db' e =
      let (pair, p, t) = transition_session-Ran env identity id key version action db s db' e in
      let change = apply_action action t.next.0 t.next.1 env.now in
      let keep = change-id env identity pair id key action t.next in
      let state = apply_action-state action t.next.0 t.next.1 env.now t.row t.allowed in
      record {
        old = t.row;
        new = change t.row;
        was = t.found;
        is =
            subst (λ rows. find (is_row id) rows ≡ some (change t.row)) (sym t.rows)
              (find-update (is_row id) change (λ r. ap (λ (n : ℕ). n == id) (keep r))
                db.focus_sessions t.row t.found);
        expected = t.version;
        next =
            apply_action-version action t.next.0 t.next.1 env.now t.row
            ∙ ap (λ (n : ℕ). n + 1) t.version;
        allowed = (t.next.1, rw state t.allowed);
        seen =
            unfold session_of in
            (
              ap (λ x. x.version) t.result,
              ap (λ x. x.state) t.result,
              ap (λ x. x.ends_at) t.result,
            );
        others = rw t.rows (
            select-update-not (is_row id) change (λ r. ap (λ (n : ℕ). n == id) (keep r))
              db.focus_sessions);
      }

transition_session-held :
    (env : Env) (identity : AuthIdentity) (id key version : ℕ) (action : SessionAction) (db : Db)
    (s : FocusSession) (db' : Db) (pair : ℕ)
    → transition_session env identity id key version action db ≡ ok ((s, false), db')
    → identity.pair_id ≡ some pair
    → any (λ r. r.id == id && r.pair_id == pair) db'.focus_sessions ≡ true
transition_session-held env identity id key version action db s db' pair e p =
    let (pair', p', t) = transition_session-Ran env identity id key version action db s db' e in
    let same : pair' ≡ pair = cc in
    let change = apply_action action t.next.0 t.next.1 env.now in
    let keep = change-id env identity pair id key action t.next in
    let keep_pair = apply_action-pair_id action t.next.0 t.next.1 env.now in
    subst (λ rows. any (λ r. r.id == id && r.pair_id == pair) rows ≡ true) (sym t.rows)
      (any-update (λ r. r.id == id && r.pair_id == pair) (is_row id) change
          (λ r. ap₂ (λ (n m : ℕ). n == id && m == pair) (keep r) (keep_pair r)) db.focus_sessions
        ∙ subst (λ n. any (λ r. r.id == id && r.pair_id == n) db.focus_sessions ≡ true) same t.held)

read_for_update-reads :
    (id pair : ℕ) (db : Db) (row : SessionRow)
    → any (λ r. r.id == id && r.pair_id == pair) db.focus_sessions ≡ true
    → find (is_row id) db.focus_sessions ≡ some row
    → read_session_for_update id pair db ≡ ok (session_of db row, db)
unfolding read_session_for_update read_session ◌>>=◌
read_for_update-reads id pair db row held found =
    let (r, hit) = find-of-any (λ x. x.id == id && x.pair_id == pair) db.focus_sessions held in
    let same : r.id ≡ id =
      ground (arith, find-holds (λ x. x.id == id && x.pair_id == pair) db.focus_sessions r hit) in
    let again : find (is_row r.id) db.focus_sessions ≡ some row = rw same found in ground arith

-- A transition that runs on a session at another version than the one expected is refused.
transition_new-refused :
    (env : Env) (identity : AuthIdentity) (pair id key version : ℕ) (action : SessionAction)
    (db : Db) (row : SessionRow)
    → is_pair_member pair identity.account_id db ≡ true
    → read_session_for_update id pair db ≡ ok (session_of db row, db)
    → (row.version == version) ≡ false
    → transition_new env identity pair id key version action db ≡ err version_mismatch
unfolding transition_new require_pair_member session_of ◌>>=◌
transition_new-refused env identity pair id key version action db row member read stale =
    ground arith

-- After a transition at some version, whoever of the pair sends another action for that session
-- with the same expected version is refused with a version conflict, provided that the request is
-- new under its idempotency key and its sender is still a member. So of two concurrent actions on
-- one version at most one takes effect.
pub transition_session-stale :
    (env env' : Env) (identity identity' : AuthIdentity) (pair id key key' version : ℕ)
    (action action' : SessionAction) (db : Db) (s : FocusSession) (db' : Db)
    → transition_session env identity id key version action db ≡ ok ((s, false), db')
    → identity.pair_id ≡ some pair
    → identity'.pair_id ≡ some pair
    → is_pair_member pair identity'.account_id db' ≡ true
    → idempotent_session env' identity'.account_id key' (operation_of action') db' ≡ ok (none, db')
    → transition_session env' identity' id key' version action' db' ≡ err version_mismatch
unfolding transition_session or_replay ◌>>=◌
transition_session-stale env env' identity identity' pair id key key' version action action' db s
      db' e p p' member unseen =
    let held = transition_session-held env identity id key version action db s db' pair e p in
    let u = transition_session-Updates env identity id key version action db s db' e in
    let refused =
      transition_new-refused env' identity' pair id key' version action' db' u.new member
        (read_for_update-reads id pair db' u.new held u.is) (ground (arith, u.next)) in
    in_pair-eq _ p' (ground (arith, unseen, refused))
