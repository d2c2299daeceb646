-- ===== src/Store/Sessions/Reads.antt =====
-- The statements of the session operations that leave the database as it is.
use along.Prelude.{ℕ, String, Option, arith}
use along.Store.Schema.{Env, Response}
use along.Store.Tx.{Reads, ◌>>=◌}
use along.Store.Idempotency.{get_idempotency, as_session, as_note, as_cheer, idempotent_session}
use along.Store.Sessions.Read.{read_session, read_session_for_update, require_pair_member}

pub read_session-Reads : (id : ℕ) → Reads (read_session id)
unfolding read_session
read_session-Reads id db a db' e = ground arith

pub read_session_for_update-Reads : (id pair : ℕ) → Reads (read_session_for_update id pair)
unfolding read_session_for_update ◌>>=◌
read_session_for_update-Reads id pair db a db' e = ground arith

pub require_pair_member-Reads : (pair account : ℕ) → Reads (require_pair_member pair account)
unfolding require_pair_member
require_pair_member-Reads pair account db a db' e = ground arith

pub get_idempotency-Reads :
    (env : Env) (account key : ℕ) (operation : String)
    → Reads (get_idempotency env account key operation)
unfolding get_idempotency
get_idempotency-Reads env account key operation db a db' e = ground arith

pub as_note-Reads : (r : Option Response) → Reads (as_note r)
unfolding as_note
as_note-Reads r db a db' e = ground arith

pub as_cheer-Reads : (r : Option Response) → Reads (as_cheer r)
unfolding as_cheer
as_cheer-Reads r db a db' e = ground arith

pub idempotent_session-Reads :
    (env : Env) (account key : ℕ) (operation : String)
    → Reads (idempotent_session env account key operation)
unfolding idempotent_session get_idempotency as_session ◌>>=◌
idempotent_session-Reads env account key operation db a db' e = ground arith
