-- ===== src/Http/Sync/Keeps.antt =====
-- Commands of POST /v1/sync and the table of sessions.
use along.Prelude.{ℕ, ℤ, Option, none, some, List, [], ◌∷◌, arith}
use along.Domain.Models.{AuthIdentity}
use along.Domain.StateMachine.{SessionAction, join, pause, resume, complete, cancel, expire}
use along.Store.Schema.{Db, Env}
use along.Store.Tx.{Keeps}
use along.Store.Sessions.Transition.{join_session}
use along.Store.Sessions.Keeps.{
  Consistent, transition_session-Consistent, current_session-Keeps, start_session-Consistent,
  import_solo_session-Consistent, add_note-Consistent, add_cheer-Consistent,
}
use along.Http.Handler.{
  Outcome, done, failed, Handler, pure, ◌>>=◌, Preserves, Preserves-call, Preserves-done,
  Preserves-guard, Preserves-attempt, Preserves-bind,
}
use along.Http.Sync.{
  SyncCommand, SyncCommandResult, Decoders, CommandKind, start, import_solo, note, cheer,
  unsupported, act, or_refuse, strict_payload, change_session, command_kind, command_resource,
  apply_sync_command, command_result, sync_each, checked_limit, sync,
}

or_refuse-Preserves : {P : Db → Type 0} {A : Type 0} (o : Option A) → Preserves P (or_refuse o)
or_refuse-Preserves none = record { run = λ db p. p }
or_refuse-Preserves (some a) = record { run = λ db p. p }

strict_payload-Preserves :
    {P : Db → Type 0} {A : Type 0} (decode : List ℕ → Option A) (raw : List ℕ)
    → Preserves P (strict_payload decode raw)
unfolding strict_payload
strict_payload-Preserves decode [] = record { run = λ db p. p }
strict_payload-Preserves decode (b ∷ bs) = or_refuse-Preserves (decode (b ∷ bs))

module _ (env : Env) (identity : AuthIdentity) where
  change_session-Consistent :
      (id key version : ℕ) (action : SessionAction)
      → Keeps Consistent (change_session env identity id key version action)
  unfolding change_session join_session
  change_session-Consistent id key version join =
      transition_session-Consistent env identity id key version join
  change_session-Consistent id key version pause =
      transition_session-Consistent env identity id key version pause
  change_session-Consistent id key version resume =
      transition_session-Consistent env identity id key version resume
  change_session-Consistent id key version complete =
      transition_session-Consistent env identity id key version complete
  change_session-Consistent id key version cancel =
      transition_session-Consistent env identity id key version cancel
  change_session-Consistent id key version expire =
      transition_session-Consistent env identity id key version expire

  -- A call, and an answer made of what it returns.
  answer-Preserves :
      {A B : Type 0} (h : Handler A) (f : A → B)
      → Preserves Consistent h
      → Preserves Consistent (h >>= λ a. pure (f a))
  answer-Preserves h f keeps = Preserves-bind _ _ keeps λ a. Preserves-done _

  command_resource-Preserves :
      (json : Decoders) (c : SyncCommand) (kind : CommandKind)
      → Preserves Consistent (command_resource json env identity c kind)
  unfolding command_resource
  command_resource-Preserves json c start =
      answer-Preserves _ _ (Preserves-call _ (start_session-Consistent env identity c.id _))
  command_resource-Preserves json c import_solo =
      Preserves-bind _ _ (or_refuse-Preserves c.entity_id) λ id.
        Preserves-bind _ _ (Preserves-guard _ _) λ _.
          Preserves-bind _ _ (strict_payload-Preserves json.times c.payload) λ times.
            answer-Preserves _ _ (
              Preserves-call _
                (import_solo_session-Consistent env identity c.id id times.0 times.1))
  command_resource-Preserves json c (act action) =
      Preserves-bind _ _ (or_refuse-Preserves c.entity_id) λ id.
        Preserves-bind _ _ (or_refuse-Preserves c.expected_version) λ version.
          Preserves-bind _ _ (Preserves-guard _ _) λ _.
            answer-Preserves _ _
              (Preserves-call _ (change_session-Consistent id c.id version action))
  command_resource-Preserves json c note =
      Preserves-bind _ _ (or_refuse-Preserves c.entity_id) λ id.
        Preserves-bind _ _ (strict_payload-Preserves json.body c.payload) λ body.
          Preserves-bind _ _ (Preserves-guard _ _) λ _.
            answer-Preserves _ _ (Preserves-call _ (add_note-Consistent env identity id c.id body))
  command_resource-Preserves json c cheer =
      Preserves-bind _ _ (or_refuse-Preserves c.entity_id)
        λ id. answer-Preserves _ _ (Preserves-call _ (add_cheer-Consistent env identity id c.id))
  command_resource-Preserves json c unsupported = Preserves-done _

  apply_sync_command-Preserves :
      (json : Decoders) (c : SyncCommand)
      → Preserves Consistent (apply_sync_command json env identity c)
  unfolding apply_sync_command
  apply_sync_command-Preserves json c =
      Preserves-bind _ _ (Preserves-guard _ _)
        λ _. answer-Preserves _ _ (command_resource-Preserves json c (command_kind c.command_type))

command_result-Preserves :
    (id : ℕ) (o : Outcome SyncCommandResult) → Preserves Consistent (command_result id o)
unfolding command_result
command_result-Preserves id (done r) = Preserves-done _
command_result-Preserves id (failed f) = record { run = λ db p. ground (arith, p) }

sync_each-Preserves :
    (json : Decoders) (identity : AuthIdentity) (commands : List (Env × SyncCommand))
    → Preserves Consistent (sync_each json identity commands)
unfolding sync_each
sync_each-Preserves json identity [] = Preserves-done _
sync_each-Preserves json identity ((env, c) ∷ rest) =
    Preserves-bind _ _ (Preserves-attempt _ (apply_sync_command-Preserves env identity json c)) λ o.
      Preserves-bind _ _ (command_result-Preserves c.id o)
        λ r. Preserves-bind _ _ (sync_each-Preserves json identity rest) λ rs. Preserves-done _

-- A request of any commands leaves a consistent table of sessions consistent, also when it fails
-- after some of them: ids are distinct, no pair has two active sessions, and every row carries the
-- timestamps that its state calls for.
pub sync-Consistent :
    (json : Decoders) (env : Env) (identity : AuthIdentity) (cursor limit : ℤ)
    (commands : List (Env × SyncCommand)) (db : Db)
    → Consistent db
    → Consistent (sync json env identity cursor limit commands db).1
unfolding sync checked_limit
sync-Consistent json env identity cursor limit commands =
    (Preserves-bind _ _ (Preserves-guard _ _) λ _.
      Preserves-bind _ _ (Preserves-bind _ _ (Preserves-guard _ _) λ _. Preserves-done _) λ _.
        Preserves-bind _ _ (sync_each-Preserves json identity commands) λ results.
          Preserves-bind _ _ (Preserves-call _ (current_session-Keeps env identity))
            λ current. Preserves-bind _ _ (Preserves-done _) λ page. Preserves-done _).run
