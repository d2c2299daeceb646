-- ===== src/Store/Sessions.antt =====
-- The operations on focus sessions of server/internal/store/collaboration.go.
pub mod Read
pub mod Elapsed
pub mod Start
pub mod Transition
pub mod Care
pub mod Queries
pub mod Invariant
pub mod Reads
pub mod Closed
pub mod Frame
pub mod Effects
pub mod Keeps
pub mod Calls
pub mod Replay
pub mod Versions
pub mod News
