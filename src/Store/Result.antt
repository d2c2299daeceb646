-- ===== src/Store/Result.antt =====
-- The errors of server/internal/store/store.go, and those of the database that an operation
-- passes on: a unique index or a primary key (SQLSTATE 23505), a CHECK (23514).
-- `decode_error` is the "decode idempotent response" of getIdempotency.
pub data StoreError : Type 0 where
  not_found conflict version_mismatch refresh_reuse invalid_refresh : StoreError
  already_paired active_session cooldown : StoreError
  unique_violation check_violation decode_error : StoreError

pub data Result {ℓ} (A : Type ℓ) : Type ℓ where
  ok : A → Result A
  err : StoreError → Result A
