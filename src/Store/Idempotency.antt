-- ===== src/Store/Idempotency.antt =====
-- getIdempotency, idempotentSession and saveIdempotency of server/internal/store/collaboration.go.
-- The stored JSON is kept as a value. A response of another shape, which no operation stores under
-- its name, is reported as `decode_error`.
use along.Prelude.{
  ◌≡◌, false, arith, ℕ, ◌+◌, ◌*◌, String, Bool, ◌&&◌, Option, none, some, [], ◌∷◌, ◌++◌, ◌==◌, ltb,
  any, find, str_eq, if◌then◌else◌,
}
use along.Domain.Models.{FocusSession, SessionNote, hour}
use along.Store.Result.{ok, err, conflict, unique_violation, decode_error}
use along.Store.Schema.{
  Db, Env, IdempotencyRow, Response, session_response, note_response, cheer_response, CheerResponse,
}
use along.Store.Tx.{Tx, pure, fail, ◌>>=◌}

abbrev pub is_key : ℕ → ℕ → IdempotencyRow → Bool
is_key account key row = row.account_id == account && row.key == key

replay : String → Option IdempotencyRow → Tx (Option Response)
replay operation none = pure none
replay operation (some row) =
    if str_eq row.operation operation then pure (some row.response) else fail conflict

unfoldable pub get_idempotency : Env → ℕ → ℕ → String → Tx (Option Response)
unfolding replay
get_idempotency env account key operation db =
    replay operation
      (find (λ row. is_key account key row && ltb env.clock row.expires_at) db.idempotency_keys) db

unfoldable pub as_session : Option Response → Tx (Option FocusSession)
as_session none = pure none
as_session (some (session_response s)) = pure (some s)
as_session (some _) = fail decode_error

unfoldable pub as_note : Option Response → Tx (Option SessionNote)
as_note none = pure none
as_note (some (note_response n)) = pure (some n)
as_note (some _) = fail decode_error

unfoldable pub as_cheer : Option Response → Tx (Option CheerResponse)
as_cheer none = pure none
as_cheer (some (cheer_response c)) = pure (some c)
as_cheer (some _) = fail decode_error

unfoldable pub idempotent_session : Env → ℕ → ℕ → String → Tx (Option FocusSession)
idempotent_session env account key operation = do
  response ← get_idempotency env account key operation
  as_session response

-- The interval '7 days'.
abbrev pub retention : ℕ
retention = 7 * (24 * hour)

unfoldable pub key_row : Env → ℕ → ℕ → String → Response → IdempotencyRow
key_row env account key operation response = record {
  account_id = account;
  key = key;
  operation = operation;
  response = response;
  expires_at = env.clock + retention;
}

-- The database after the INSERT.
unfoldable pub with_key : Env → ℕ → ℕ → String → Response → Db → Db
unfolding key_row
with_key env account key operation response db = record db {
  idempotency_keys = db.idempotency_keys ++ key_row env account key operation response ∷ [];
}

-- The primary key is (account_id, key).
unfoldable pub save_idempotency : Env → ℕ → ℕ → String → Response → Tx (Unit {0})
save_idempotency env account key operation response db =
    if any (is_key account key) db.idempotency_keys
    then err unique_violation
    else ok (tt, with_key env account key operation response db)

-- A save that succeeds found no row under the key, and appends one.
pub save_idempotency-saves :
    (env : Env) (account key : ℕ) (operation : String) (response : Response) (db : Db)
    (a : Unit {0}) (db' : Db)
    → save_idempotency env account key operation response db ≡ ok (a, db')
    → (any (is_key account key) db.idempotency_keys ≡ false)
      × (db' ≡ with_key env account key operation response db)
unfolding save_idempotency
save_idempotency-saves env account key operation response db a db' e = (ground arith, ground arith)
