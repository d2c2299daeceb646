-- ===== src/Store/Sessions/Elapsed/Refines.antt =====
-- completeElapsedSession never fails, and what it does to the table of sessions.
use along.Prelude.{
  ℕ, ◌≡◌, refl, sym, subst, ap, ◌∙◌, Bool, true, none, some, List, [], ◌∷◌, map, ◌==◌, any, find,
  select, update, All, arith, find-of-any, any-update, Bool-cases, inl, inr, ==_refl, if◌then◌else◌,
  String,
}
use along.Store.Result.{ok}
use along.Store.Schema.{Db, Env, SessionRow, session_payload}
use along.Store.Tx.{◌>>=◌}
use along.Store.Events.{append_pair_event, with_event}
use along.Store.Sessions.Read.{read_session, session_of}
use along.Store.Sessions.Elapsed.{
  is_stale, is_elapsed, expire_row, complete_row, update_session, expire_each, complete_each,
  complete_elapsed_session,
}
use along.Store.Sessions.Elapsed.Sweep.{is_row, Distinct, Distinct-update, sweep, sweep-select}

-- The database after one round of a loop, which updates a row and appends an event.
abbrev settled : Env → ℕ → ℕ → String → (SessionRow → SessionRow) → SessionRow → Db → Db
settled env pair id event_type f row db =
    let db' : Db = record db { focus_sessions = update (is_row id) f db.focus_sessions } in
    with_event env pair event_type (some id) none (session_payload (session_of db' row)) db'

module _ {B : Type 0} (key : B → ℕ) where
  -- Every item names a row of the table.
  abbrev Present : List SessionRow → List B → Type 0
  Present rows = All (λ b. any (is_row (key b)) rows ≡ true)

  Present-update :
      (id : ℕ) (f : SessionRow → SessionRow)
      → ((r : SessionRow) → (f r).id ≡ r.id)
      → (rows : List SessionRow) (bs : List B) → Present rows bs
      → Present (update (is_row id) f rows) bs
  Present-update id f keep rows [] h = tt
  Present-update id f keep rows (b ∷ bs) h = (
    any-update (is_row (key b)) (is_row id) f (λ r. ap (λ (n : ℕ). n == key b) (keep r)) rows ∙ h.0,
    Present-update id f keep rows bs h.1,
  )

  Present-cons :
      (r : SessionRow) (rows : List SessionRow) (bs : List B)
      → Present rows bs
      → Present (r ∷ rows) bs
  Present-cons r rows [] h = tt
  Present-cons r rows (b ∷ bs) h = (ground arith, Present-cons r rows bs h.1)

  Present-select :
      (h : SessionRow → B) (p : SessionRow → Bool)
      → ((r : SessionRow) → key (h r) ≡ r.id)
      → (rows : List SessionRow) → Present rows (map h (select p rows))
  unfolding select
  Present-select h p keep [] = tt
  Present-select h p keep (r ∷ rows) =
      let rest = Present-cons r rows _ (Present-select h p keep rows) in
      elim (Bool-cases (p r)) [
        | inl hit ↦ rw hit (ground (arith, keep r, ==_refl r.id), rest)
        | inr miss ↦ rw miss rest
      ]

module _ (env : Env) (pair : ℕ) where
  expire_each-round :
      (id : ℕ) (ids : List ℕ) (db : Db) (row : SessionRow)
      → find (is_row id) (update (is_row id) (expire_row env) db.focus_sessions) ≡ some row
      → expire_each env pair (id ∷ ids) db
        ≡ expire_each env pair ids (settled env pair id "session.expired" (expire_row env) row db)
  unfolding expire_each update_session read_session append_pair_event ◌>>=◌
  expire_each-round id ids db row e = ground arith

  expire_each-runs :
      (ids : List ℕ) (db : Db)
      → Present (λ i. i) db.focus_sessions ids
      → (db' : Db) × (expire_each env pair ids db ≡ ok (tt, db'))
        × (db'.focus_sessions ≡ sweep (λ i. i) (λ _. expire_row env) ids db.focus_sessions)
  unfolding with_event
  expire_each-runs [] db h = (db, unfold expire_each in refl, refl)
  expire_each-runs (id ∷ ids) db h =
      let present =
        Present-update (λ i. i) id (expire_row env) (λ r. unfold expire_row in refl)
          db.focus_sessions (id ∷ ids) h in
      let (row, e) = find-of-any (is_row id) _ present.0 in
      let (db', run, rows) =
        expire_each-runs ids (settled env pair id "session.expired" (expire_row env) row db)
          present.1 in
      (db', expire_each-round id ids db row e ∙ run, rows)

  complete_each-round :
      (id ends_at : ℕ) (items : List (ℕ × ℕ)) (db : Db) (row : SessionRow)
      → find (is_row id) (update (is_row id) (complete_row env ends_at) db.focus_sessions)
        ≡ some row
      → complete_each env pair ((id, ends_at) ∷ items) db
        ≡ complete_each env pair items
            (settled env pair id "session.completed" (complete_row env ends_at) row db)
  unfolding complete_each update_session read_session append_pair_event ◌>>=◌
  complete_each-round id ends_at items db row e = ground arith

  complete_each-runs :
      (items : List (ℕ × ℕ)) (db : Db)
      → Present (λ b. b.0) db.focus_sessions items
      → (db' : Db) × (complete_each env pair items db ≡ ok (tt, db'))
        × (db'.focus_sessions
            ≡ sweep {B = ℕ × ℕ} (λ b. b.0) (λ b. complete_row env b.1) items db.focus_sessions)
  unfolding with_event
  complete_each-runs [] db h = (db, unfold complete_each in refl, refl)
  complete_each-runs ((id, ends_at) ∷ items) db h =
      let present =
        Present-update (λ b. b.0) id (complete_row env ends_at) (λ r. unfold complete_row in refl)
          db.focus_sessions ((id, ends_at) ∷ items) h in
      let (row, e) = find-of-any (is_row id) _ present.0 in
      let (db', run, rows) =
        complete_each-runs items
          (settled env pair id "session.completed" (complete_row env ends_at) row db) present.1 in
      (db', complete_each-round id ends_at items db row e ∙ run, rows)

  -- What becomes of one row of the table.
  unfoldable pub settle_row : SessionRow → SessionRow
  settle_row r =
      if is_stale env pair r
      then expire_row env r
      else if is_elapsed env pair r
      then complete_row env r.ends_at r
      else r

  sweep_stale :
      (rows : List SessionRow)
      → Distinct rows
      → sweep
          (λ i. i)
          (λ _. expire_row env)
          (map (λ r. r.id) (select (is_stale env pair) rows))
          rows
        ≡ update (is_stale env pair) (expire_row env) rows
  unfolding expire_row
  sweep_stale =
      sweep-select (λ i. i) (λ _. expire_row env) (λ r. r.id) (is_stale env pair) (expire_row env)
        (λ r. refl) (λ r. refl) (λ r. refl)

  sweep_elapsed :
      (rows : List SessionRow)
      → Distinct rows
      → sweep {B = ℕ × ℕ}
          (λ b. b.0)
          (λ b. complete_row env b.1)
          (map (λ r. (r.id, r.ends_at)) (select (is_elapsed env pair) rows))
          rows
        ≡ update (is_elapsed env pair) (λ r. complete_row env r.ends_at r) rows
  unfolding complete_row
  sweep_elapsed =
      sweep-select (λ b. b.0) (λ b. complete_row env b.1) (λ r. (r.id, r.ends_at))
        (is_elapsed env pair) (λ r. complete_row env r.ends_at r) (λ r. refl) (λ r. refl)
        (λ r. refl)

  update-update :
      (rows : List SessionRow)
      → update
          (is_elapsed env pair)
          (λ r. complete_row env r.ends_at r)
          (update (is_stale env pair) (expire_row env) rows)
        ≡ map settle_row rows
  unfolding update settle_row is_elapsed expire_row
  update-update [] = refl
  update-update (r ∷ rs) = ground (arith, update-update rs)

  -- The call succeeds on every database whose session ids are distinct, and it changes the table
  -- of sessions row by row: a session of the pair that was paused a day or more ago is expired, one
  -- that runs and has reached its end is completed as of that end, and every other row stays.
  pub complete_elapsed_session-refines :
      (db : Db)
      → Distinct db.focus_sessions
      → (db' : Db) × (complete_elapsed_session env pair db ≡ ok (tt, db'))
        × (db'.focus_sessions ≡ map settle_row db.focus_sessions)
  complete_elapsed_session-refines db d =
      let stale = map (λ (r : SessionRow). r.id) (select (is_stale env pair) db.focus_sessions) in
      let (db1, run1, swept1) =
        expire_each-runs stale db
          (Present-select (λ i. i) (λ r. r.id) (is_stale env pair) (λ r. refl) db.focus_sessions) in
      let rows1 = swept1 ∙ sweep_stale db.focus_sessions d in
      let (db2, run2, swept2) =
        complete_each-runs
          (map (λ r. (r.id, r.ends_at)) (select (is_elapsed env pair) db1.focus_sessions)) db1
          (Present-select (λ b. b.0) (λ r. (r.id, r.ends_at)) (is_elapsed env pair) (λ r. refl)
            db1.focus_sessions) in
      (
        db2,
        unfold complete_elapsed_session ◌>>=◌ in ground (arith, run1, run2),
        swept2
            ∙ sweep_elapsed db1.focus_sessions (
                subst Distinct (sym rows1) (
                  Distinct-update (is_stale env pair) (expire_row env)
                    (λ r. unfold expire_row in refl) _ d))
            ∙ ap (update (is_elapsed env pair) (λ r. complete_row env r.ends_at r)) rows1
            ∙ update-update db.focus_sessions,
      )
