-- ===== src/Store.antt =====
-- server/internal/store: the database and the operations on it.
pub mod Result
pub mod Schema
pub mod Tx
pub mod Events
pub mod Idempotency
pub mod Sessions
pub mod Auth
pub mod Pairing
pub mod Push
