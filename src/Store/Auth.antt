-- ===== src/Store/Auth.antt =====
-- server/internal/store/auth.go: accounts, passkeys, recovery codes, sign-ins and their revocation.
pub mod Accounts
pub mod Challenges
pub mod Logins
pub mod Recovery
pub mod Refresh
pub mod Identity
pub mod Revoke
pub mod Calls
pub mod Spared
pub mod Closed
pub mod Ended
pub mod Held
pub mod Lasting
pub mod History
pub mod Revoked
