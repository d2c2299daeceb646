-- ===== src/Store/Sessions/Closed.antt =====
-- An operation on sessions preserves what its statements preserve.
use along.Prelude.{ℕ, Option, none, some, String, Bool, List}
use along.Domain.Models.{AuthIdentity}
use along.Store.Schema.{Db, Env, NoteRow, ReactionRow, Alert, Payload, Response}
use along.Store.Tx.{
  Tx, Keeps, Keeps-pure, Keeps-fail, Keeps-gets, Keeps-or_fail, Keeps-guard, Keeps-bind,
  Keeps-Reads,
}
use along.Store.Events.{append_pair_event, enqueue_partner_notification}
use along.Store.Idempotency.{save_idempotency}
use along.Store.Sessions.Start.{
  insert_session, insert_session_member, started_row, imported_row, start_new, start_session,
  import_new, import_solo_session, in_pair, or_replay,
}
use along.Store.Sessions.Elapsed.{complete_elapsed_session}
use along.Store.Sessions.Care.{insert_note, note_new, add_note, cheer_new, add_cheer}
use along.Store.Sessions.Reads.{
  read_session-Reads, require_pair_member-Reads, get_idempotency-Reads, as_note-Reads,
  as_cheer-Reads, idempotent_session-Reads,
}
use along.Store.Sessions.Care.{with_reaction}

-- The statements that leave the table of sessions alone preserve `P`.
pub record IsClosed (P : Db → Type 0) : Type 0 where
  pub event :
      (env : Env) (pair : ℕ) (t : String) (entity actor : Option ℕ) (p : Payload)
      → Keeps P (append_pair_event env pair t entity actor p)
  pub notify :
      (env : Env) (pair actor cursor : ℕ) (kind : String) (a : Alert)
      → Keeps P (enqueue_partner_notification env pair actor cursor kind a)
  pub save :
      (env : Env) (account key : ℕ) (op : String) (r : Response)
      → Keeps P (save_idempotency env account key op r)
  pub member : (session account at : ℕ) → Keeps P (insert_session_member session account at)
  pub note : (row : NoteRow) → Keeps P (insert_note row)
  pub reaction : (row : ReactionRow) → Keeps P (with_reaction row)

module _ {A : Type 0} {P : Db → Type 0} where
  pub in_pair-Keeps :
      (o : Option ℕ) (f : ℕ → Tx A) → ((pair : ℕ) → Keeps P (f pair)) → Keeps P (in_pair o f)
  unfolding in_pair
  in_pair-Keeps none f h = Keeps-fail _
  in_pair-Keeps (some pair) f h = h pair

  pub or_replay-Keeps : (o : Option A) (m : Tx (A × Bool)) → Keeps P m → Keeps P (or_replay o m)
  unfolding or_replay
  or_replay-Keeps none m h = h
  or_replay-Keeps (some a) m h = Keeps-pure _

module _ {P : Db → Type 0} (c : IsClosed P) (env : Env) (identity : AuthIdentity) where
  open c use {event, notify, save, member, note, reaction}

  start_new-Keeps :
      (pair key id : ℕ)
      → Keeps P (complete_elapsed_session env pair)
      → Keeps P (insert_session (started_row env pair identity.account_id id))
      → Keeps P (start_new env identity pair key id)
  unfolding start_new
  start_new-Keeps pair key id elapsed insert =
      Keeps-bind _ _ (Keeps-Reads _ (require_pair_member-Reads _ _)) λ _.
        Keeps-bind _ _ elapsed λ _. Keeps-bind _ _ (Keeps-gets _) λ active.
          Keeps-bind _ _ (Keeps-guard _ _) λ _. Keeps-bind _ _ insert λ _.
            Keeps-bind _ _ (member _ _ _) λ _.
              Keeps-bind _ _ (Keeps-Reads _ (read_session-Reads id)) λ session.
                Keeps-bind _ _ (event _ _ _ _ _ _) λ cursor.
                  Keeps-bind _ _ (notify _ _ _ _ _ _)
                    λ _. Keeps-bind _ _ (save _ _ _ _ _) λ _. Keeps-pure _

  pub start_session-Keeps :
      (key id : ℕ)
      → ((pair : ℕ) → Keeps P (complete_elapsed_session env pair))
      → ((pair : ℕ) → Keeps P (insert_session (started_row env pair identity.account_id id)))
      → Keeps P (start_session env identity key id)
  unfolding start_session
  start_session-Keeps key id elapsed insert = in_pair-Keeps _ _ λ pair.
      Keeps-bind _ _ (Keeps-Reads _ (idempotent_session-Reads _ _ _ _)) λ cached.
        or_replay-Keeps cached _ (start_new-Keeps pair key id (elapsed pair) (insert pair))

  import_new-Keeps :
      (pair key id started_at completed_at : ℕ)
      → Keeps P
          (insert_session (imported_row env pair identity.account_id id started_at completed_at))
      → Keeps P (import_new env identity pair key id started_at completed_at)
  unfolding import_new
  import_new-Keeps pair key id started_at completed_at insert =
      Keeps-bind _ _ (Keeps-Reads _ (require_pair_member-Reads _ _)) λ _. Keeps-bind _ _ insert λ _.
        Keeps-bind _ _ (member _ _ _) λ _.
          Keeps-bind _ _ (Keeps-Reads _ (read_session-Reads id)) λ session.
            Keeps-bind _ _ (event _ _ _ _ _ _)
              λ cursor. Keeps-bind _ _ (save _ _ _ _ _) λ _. Keeps-pure _

  pub import_solo_session-Keeps :
      (key id started_at completed_at : ℕ)
      → ((pair : ℕ)
          → Keeps P (
              insert_session
                (imported_row env pair identity.account_id id started_at completed_at)))
      → Keeps P (import_solo_session env identity key id started_at completed_at)
  unfolding import_solo_session
  import_solo_session-Keeps key id started_at completed_at insert = in_pair-Keeps _ _ λ pair.
      Keeps-bind _ _ (Keeps-guard _ _) λ _.
        Keeps-bind _ _ (Keeps-Reads _ (idempotent_session-Reads _ _ _ _)) λ cached.
          or_replay-Keeps cached _
            (import_new-Keeps pair key id started_at completed_at (insert pair))

  note_new-Keeps :
      (pair key id : ℕ) (body : List ℕ) → Keeps P (note_new env identity pair id key body)
  unfolding note_new
  note_new-Keeps pair key id body =
      Keeps-bind _ _ (Keeps-Reads _ (require_pair_member-Reads _ _)) λ _.
        Keeps-bind _ _ (Keeps-gets _) λ exists. Keeps-bind _ _ (Keeps-guard _ _) λ _.
          Keeps-bind _ _ (note _) λ _. Keeps-bind _ _ (event _ _ _ _ _ _) λ cursor.
            Keeps-bind _ _ (notify _ _ _ _ _ _)
              λ _. Keeps-bind _ _ (save _ _ _ _ _) λ _. Keeps-pure _

  pub add_note-Keeps : (id key : ℕ) (body : List ℕ) → Keeps P (add_note env identity id key body)
  unfolding add_note
  add_note-Keeps id key body = in_pair-Keeps _ _ λ pair.
      Keeps-bind _ _ (Keeps-Reads _ (get_idempotency-Reads _ _ _ _)) λ response.
        Keeps-bind _ _ (Keeps-Reads _ (as_note-Reads response))
          λ cached. or_replay-Keeps cached _ (note_new-Keeps pair key id body)

  cheer_new-Keeps : (pair key id : ℕ) → Keeps P (cheer_new env identity pair id key)
  unfolding cheer_new
  cheer_new-Keeps pair key id = Keeps-bind _ _ (Keeps-gets _) λ found.
      Keeps-bind _ _ (Keeps-or_fail _ found) λ row. Keeps-bind _ _ (Keeps-guard _ _) λ _.
        Keeps-bind _ _ (Keeps-gets _) λ recent. Keeps-bind _ _ (Keeps-guard _ _) λ _.
          Keeps-bind _ _ (reaction _) λ _.
            Keeps-bind _ _ (event _ _ _ _ _ _)
              λ cursor. Keeps-bind _ _ (save _ _ _ _ _) λ _. Keeps-pure _

  pub add_cheer-Keeps : (id key : ℕ) → Keeps P (add_cheer env identity id key)
  unfolding add_cheer
  add_cheer-Keeps id key = in_pair-Keeps _ _ λ pair.
      Keeps-bind _ _ (Keeps-Reads _ (get_idempotency-Reads _ _ _ _)) λ response.
        Keeps-bind _ _ (Keeps-Reads _ (as_cheer-Reads response))
          λ cached. or_replay-Keeps cached _ (cheer_new-Keeps pair key id)
