-- ===== src/Store/Sessions/Keeps.antt =====
-- Every operation on focus sessions keeps the table consistent.
use along.Prelude.{
  ℕ, ◌≡◌, ◌∙◌, All-find, sym, subst, false, Option, none, some, List, [], ◌∷◌, ◌++◌, All, arith,
  any, ◌&&◌,
}
use along.Domain.Models.{SessionState, AuthIdentity}
use along.Domain.StateMachine.{
  SessionAction, join, pause, resume, complete, cancel, expire, next_state,
}
use along.Store.Result.{Result, ok}
use along.Store.Schema.{Db, Env, SessionRow}
use along.Store.Tx.{Keeps, Keeps-gets, Keeps-bind, Keeps-Reads, Keeps-pure}
use along.Store.Sessions.Elapsed.{
  is_stale, is_elapsed, expire_row, complete_row, complete_elapsed_session,
}
use along.Store.Sessions.Elapsed.Sweep.{is_row}
use along.Store.Sessions.Elapsed.Refines.{settle_row, complete_elapsed_session-refines}
use along.Store.Sessions.Reads.{idempotent_session-Reads, read_session-Reads}
use along.Store.Sessions.Start.{
  is_active_in, is_active_state, started_row, imported_row, insert_session, start_session,
  import_solo_session,
}
use along.Store.Sessions.Transition.{apply_action, transition_new, transition_session}
use along.Store.Sessions.Care.{add_note, add_cheer}
use along.Store.Sessions.Queries.{current_session, current_in, read_found}
use along.Store.Sessions.Closed.{
  in_pair-Keeps, or_replay-Keeps, start_session-Keeps, import_solo_session-Keeps, add_note-Keeps,
  add_cheer-Keeps,
}
use along.Store.Sessions.Frame.{OnSessions, sessions_closed}
use along.Store.Sessions.Effects.{transition_new-Transitioned}
use along.Store.Sessions.Invariant.{
  IsValidRow, IsConsistent, Evolves, EvolvesAll, map-IsConsistent, append-IsConsistent,
  update-IsConsistent,
}

-- The table of sessions is consistent.
abbrev pub Consistent : Db → Type 0
Consistent = OnSessions IsConsistent

settle_row-Evolves :
    (env : Env) (pair : ℕ) (r : SessionRow) → IsValidRow r → Evolves r (settle_row env pair r)
unfolding settle_row is_stale is_elapsed expire_row complete_row
settle_row-Evolves env pair r v = ground arith

apply_action-Evolves :
    (action : SessionAction) (s' : SessionState) (o' : Option SessionState) (now : ℕ)
    (r : SessionRow)
    → IsValidRow r
    → next_state r.state r.pause_origin action ≡ some (s', o')
    → Evolves r (apply_action action s' o' now r)
unfolding next_state apply_action
apply_action-Evolves join s' o' now r v e = ground arith
apply_action-Evolves pause s' o' now r v e = ground arith
apply_action-Evolves resume s' o' now r v e = ground arith
apply_action-Evolves complete s' o' now r v e = ground arith
apply_action-Evolves cancel s' o' now r v e = ground arith
apply_action-Evolves expire s' o' now r v e = ground arith

started_row-IsValidRow :
    (env : Env) (pair account id : ℕ) → IsValidRow (started_row env pair account id)
unfolding started_row
started_row-IsValidRow env pair account id = ground arith

imported_row-IsValidRow :
    (env : Env) (pair account id started_at completed_at : ℕ)
    → IsValidRow (imported_row env pair account id started_at completed_at)
unfolding imported_row
imported_row-IsValidRow env pair account id started_at completed_at = ground arith

settle-EvolvesAll :
    (env : Env) (pair : ℕ) (rows : List SessionRow)
    → All IsValidRow rows
    → EvolvesAll (settle_row env pair) rows
settle-EvolvesAll env pair [] v = tt
settle-EvolvesAll env pair (r ∷ rs) v =
    (settle_row-Evolves env pair r v.0, settle-EvolvesAll env pair rs v.1)

same_db :
    {A : Type 0} {a b : A} {d e : Db} → ◌≡◌ {A = Result (A × Db)} (ok (a, d)) (ok (b, e)) → d ≡ e
same_db h = cc

pub complete_elapsed_session-Keeps :
    (env : Env) (pair : ℕ) → Keeps Consistent (complete_elapsed_session env pair)
complete_elapsed_session-Keeps env pair = record {
  run = λ db c a db' e.
      let (d, runs, rows) = complete_elapsed_session-refines env pair db c.distinct in
      subst (λ x. IsConsistent x.focus_sessions) (same_db (sym runs ∙ e))
        (subst IsConsistent (sym rows) (
          map-IsConsistent (settle_row env pair) db.focus_sessions
            (settle-EvolvesAll env pair db.focus_sessions c.valid) c));
}

insert_session-inserts :
    (row : SessionRow) (db : Db) (a : Unit {0}) (db' : Db)
    → insert_session row db ≡ ok (a, db')
    → (any (is_row row.id) db.focus_sessions ≡ false)
      × ((is_active_state row.state && any (is_active_in row.pair_id) db.focus_sessions) ≡ false)
      × (db'.focus_sessions ≡ db.focus_sessions ++ row ∷ [])
unfolding insert_session
insert_session-inserts row db a db' e = (ground arith, ground arith, ground arith)

insert_session-Keeps : (row : SessionRow) → IsValidRow row → Keeps Consistent (insert_session row)
insert_session-Keeps row v = record {
  run = λ db c a db' e.
      let (fresh, idle, rows) = insert_session-inserts row db a db' e in
      subst IsConsistent (sym rows) (append-IsConsistent row db.focus_sessions v fresh idle c);
}

transition_new-Keeps :
    (env : Env) (identity : AuthIdentity) (pair id key version : ℕ) (action : SessionAction)
    → Keeps Consistent (transition_new env identity pair id key version action)
transition_new-Keeps env identity pair id key version action = record {
  run = λ db c (s, replayed) db' e.
      let t =
        transition_new-Transitioned env identity pair id key version action db s replayed db' e in
      subst IsConsistent (sym t.rows) (
        update-IsConsistent id (apply_action action t.next.0 t.next.1 env.now) db.focus_sessions
          t.row t.found
          (apply_action-Evolves action t.next.0 t.next.1 env.now t.row
            (All-find IsValidRow (is_row id) db.focus_sessions c.valid t.found) t.allowed)
          c);
}

module _ (env : Env) (identity : AuthIdentity) where
  pub transition_session-Consistent :
      (id key version : ℕ) (action : SessionAction)
      → Keeps Consistent (transition_session env identity id key version action)
  unfolding transition_session
  transition_session-Consistent id key version action = in_pair-Keeps _ _ λ pair.
      Keeps-bind _ _ (Keeps-Reads _ (idempotent_session-Reads _ _ _ _)) λ cached.
        or_replay-Keeps cached _ (transition_new-Keeps env identity pair id key version action)

read_found-Keeps : (found : Option SessionRow) → Keeps Consistent (read_found found)
unfolding read_found
read_found-Keeps none = Keeps-pure none
read_found-Keeps (some row) =
    Keeps-bind _ _ (Keeps-Reads _ (read_session-Reads row.id)) λ session. Keeps-pure (some session)

current_in-Keeps : (env : Env) (pair : Option ℕ) → Keeps Consistent (current_in env pair)
unfolding current_in
current_in-Keeps env none = Keeps-pure none
current_in-Keeps env (some pair) =
    Keeps-bind _ _ (complete_elapsed_session-Keeps env pair)
      λ _. Keeps-bind _ _ (Keeps-gets _) λ found. read_found-Keeps found

module _ (env : Env) (identity : AuthIdentity) where
  pub current_session-Keeps : Keeps Consistent (current_session env identity)
  unfolding current_session
  current_session-Keeps = current_in-Keeps env identity.pair_id

  pub start_session-Consistent : (key id : ℕ) → Keeps Consistent (start_session env identity key id)
  start_session-Consistent key id =
      start_session-Keeps (sessions_closed IsConsistent) env identity key id
        (complete_elapsed_session-Keeps env)
        (λ pair. insert_session-Keeps _ (started_row-IsValidRow env pair identity.account_id id))

  pub import_solo_session-Consistent :
      (key id started_at completed_at : ℕ)
      → Keeps Consistent (import_solo_session env identity key id started_at completed_at)
  import_solo_session-Consistent key id started_at completed_at =
      import_solo_session-Keeps (sessions_closed IsConsistent) env identity key id started_at
        completed_at
        (λ pair.
          insert_session-Keeps _
            (imported_row-IsValidRow env pair identity.account_id id started_at completed_at))

  pub add_note-Consistent :
      (id key : ℕ) (body : List ℕ) → Keeps Consistent (add_note env identity id key body)
  add_note-Consistent = add_note-Keeps (sessions_closed IsConsistent) env identity

  pub add_cheer-Consistent : (id key : ℕ) → Keeps Consistent (add_cheer env identity id key)
  add_cheer-Consistent = add_cheer-Keeps (sessions_closed IsConsistent) env identity
