-- ===== src/Http.antt =====
-- The HTTP API of server/internal/httpapi, after routing and decoding.
pub mod Handler
pub mod RateLimit
pub mod Sync
pub mod Sessions
pub mod Pairs
pub mod Access
pub mod SignIn
