-- ===== src/Http/Sessions/Laws.antt =====
-- The REST handlers of sessions and the commands of POST /v1/sync.
use along.Prelude.{
  ℕ, ◌≡◌, refl, Bool, true, false, ◌&&◌, none, some, List, [], ◌∷◌, ◌==◌, leb, length, All,
  if◌then◌else◌, Bool-cases, inl, inr, is_space, trim_left, trim_right, trim_space,
}
use along.Domain.Models.{AuthIdentity}
use along.Domain.StateMachine.{SessionAction}
use along.Store.Schema.{Db, Env, Response, session_response, note_response, cheer_response}
use along.Store.Sessions.Start.{start_session}
use along.Store.Sessions.Care.{add_note, add_cheer}
use along.Http.Handler.{new_error, Outcome, done, failed, app, Handler, pure, call, ◌>>=◌}
use along.Http.Sync.{
  SyncCommand, SyncCommandResult, Decoders, CommandKind, start, act, note, cheer, command_kind,
  command_resource, apply_sync_command, start_id, change_session, strict_payload,
}
use along.Http.Sessions.{
  decoded, Reply, idempotency_key, start_session_handler, transition_handler, add_note_handler,
  add_cheer_handler,
}

-- The result of a command that has the outcome of a handler.
abbrev pub as_result :
    {A : Type 0} → ℕ → (A → Response) → Outcome (Reply A) × Db → Outcome SyncCommandResult × Db
as_result id respond (done reply, db) = (
  done (record { id = id; applied = true; resource = some (respond reply.value); error = none }),
  db,
)
as_result id respond (failed f, db) = (failed f, db)

module _ {A : Type 0} (id : ℕ) (respond : A → Response) (status : A × Bool → ℕ) where
  abbrev pub command_end : Handler (A × Bool) → Handler SyncCommandResult
  command_end h = (h >>= λ answer. pure (respond answer.0)) >>= λ resource.
      pure (record { id = id; applied = true; resource = some resource; error = none })

  abbrev handler_end : Handler (A × Bool) → Handler (Reply A)
  handler_end h = h >>= λ answer.
      pure (record { status = status answer; replayed = answer.1; value = answer.0 })

  ends_agree :
      (p : Outcome (A × Bool) × Db) (db : Db)
      → command_end (λ _. p) db ≡ as_result id respond (handler_end (λ _. p) db)
  unfolding ◌>>=◌
  ends_agree (done a, d) db = refl
  ends_agree (failed f, d) db = refl

module _ (json : Decoders) (env : Env) (identity : AuthIdentity) (c : SyncCommand)
    (named : (c.id == 0) ≡ false) where
  resource_of :
      (kind : CommandKind) (db : Db)
      → command_kind c.command_type ≡ kind
      → apply_sync_command json env identity c db
        ≡ (command_resource json env identity c kind >>= λ resource.
              pure (record { id = c.id; applied = true; resource = some resource; error = none }))
            db
  unfolding apply_sync_command ◌>>=◌
  resource_of kind db e = rw (named, e) refl

  -- A command to act on a session has the outcome and the effect of the request to the handler of
  -- that action, errors included, where the id of the command, which is not nil, is the idempotency
  -- key of the request.
  pub transition-agrees :
      (id version : ℕ) (action : SessionAction) (db : Db)
      → command_kind c.command_type ≡ act action
      → c.entity_id ≡ some id
      → c.expected_version ≡ some version
      → apply_sync_command json env identity c db
        ≡ as_result c.id session_response
            (transition_handler env identity (some id) (some c.id) (decoded version) action db)
  transition-agrees id version action db kind entity expected =
      rw (resource_of (act action) db kind) (
        unfold command_resource transition_handler idempotency_key ◌>>=◌ in
        rw (entity, expected)
          (elim (Bool-cases (leb 1 version)) [
            | inl sound ↦ rw sound (
                ends_agree c.id session_response (λ _. 200)
                  (call (change_session env identity id c.id version action) db) db)
            | inr low ↦ rw low refl
          ]))

  -- The same for a command that starts a session under an id that is not nil.
  pub start-agrees :
      (id : ℕ) (db : Db)
      → command_kind c.command_type ≡ start
      → c.entity_id ≡ some id
      → (id == 0) ≡ false
      → apply_sync_command json env identity c db
        ≡ as_result c.id session_response
            (start_session_handler env identity (decoded id) (some c.id) db)
  start-agrees id db kind entity given = rw (resource_of start db kind) (
      unfold command_resource start_id start_session_handler idempotency_key ◌>>=◌ in
      rw (entity, given)
        (ends_agree c.id session_response (λ answer. if answer.1 then 200 else 201)
          (call (start_session env identity c.id id) db) db))

  -- The same for a command that cheers.
  pub cheer-agrees :
      (id : ℕ) (db : Db)
      → command_kind c.command_type ≡ cheer
      → c.entity_id ≡ some id
      → apply_sync_command json env identity c db
        ≡ as_result c.id cheer_response
            (add_cheer_handler env identity (some id) (some c.id) (decoded tt) db)
  cheer-agrees id db kind entity = rw (resource_of cheer db kind) (
      unfold command_resource add_cheer_handler idempotency_key ◌>>=◌ in
      rw entity
        (ends_agree c.id cheer_response (λ _. 201) (call (add_cheer env identity id c.id) db) db))

trim_left-blank : (text : List ℕ) → All (λ ch. is_space ch ≡ true) text → trim_left text ≡ []
unfolding trim_left
trim_left-blank [] h = refl
trim_left-blank (ch ∷ chs) (space, h) = rw space (trim_left-blank chs h)

-- A note of white space alone is refused by its handler, with status 422 and no change, whereas the
-- command for it passes the text to AddNote, if there are 120 characters at most.
pub blank_note_differs :
    (json : Decoders) (env : Env) (identity : AuthIdentity) (c : SyncCommand) (id : ℕ)
    (text : List ℕ) (db : Db)
    → (c.id == 0) ≡ false
    → command_kind c.command_type ≡ note
    → c.entity_id ≡ some id
    → strict_payload json.body c.payload db ≡ (done text, db)
    → All (λ ch. is_space ch ≡ true) text
    → (leb 1 (length text) && leb (length text) 120) ≡ true
    → (add_note_handler env identity (some id) (some c.id) (decoded text) db ≡ (
      failed (app (new_error 422 "invalid_note" "Use a note between 1 and 120 characters.")),
      db,
    ))
      × (apply_sync_command json env identity c db
          ≡ command_end c.id note_response
              (λ _. 201)
              (call (add_note env identity id c.id text))
              db)
blank_note_differs json env identity c id text db named kind entity decodes blank short = (
  unfold add_note_handler idempotency_key trim_space trim_right ◌>>=◌ in
      rw (trim_left-blank text blank) refl,
  rw (resource_of json env identity c named note db kind)
      (unfold command_resource ◌>>=◌ in rw (entity, decodes, short) refl),
)
