-- ===== src/Store/Sessions/Frame.antt =====
-- Most statements of the session operations leave the table of sessions alone.
use along.Prelude.{subst, List, arith}
use along.Store.Schema.{Db, SessionRow}
use along.Store.Tx.{Triple-post}
use along.Store.Events.{append_pair_event, with_event, enqueue_partner_notification}
use along.Store.Idempotency.{save_idempotency, with_key}
use along.Store.Sessions.Start.{insert_session_member}
use along.Store.Sessions.Closed.{IsClosed}
use along.Store.Sessions.Care.{insert_note, with_reaction}

-- A predicate on the table of sessions alone.
abbrev pub OnSessions : (List SessionRow → Type 0) → Db → Type 0
OnSessions Q db = Q db.focus_sessions

module _ (Q : List SessionRow → Type 0) where
  pub sessions_closed : IsClosed (OnSessions Q)
  unfolding append_pair_event with_event enqueue_partner_notification save_idempotency with_key
      insert_session_member insert_note with_reaction
  sessions_closed = record {
    event = λ env pair t entity actor p. Triple-post _ (λ db h. h);
    notify = λ env pair actor cursor kind a. Triple-post _ (λ db h. h);
    save = λ env account key op r. record { run = λ db h a db' e. subst Q (ground arith) h };
    member = λ session account at. record { run = λ db h a db' e. subst Q (ground arith) h };
    note = λ row. record { run = λ db h a db' e. subst Q (ground arith) h };
    reaction = λ row. Triple-post _ (λ db h. h);
  }
