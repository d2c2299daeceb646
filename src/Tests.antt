-- ===== src/Tests.antt =====
-- Runs of the model on small data, and the theorems at inputs that meet their hypotheses.
mod Sessions
mod Push
mod Pairing
mod Auth
mod Worker
mod Client
mod Http
mod Service
mod Ceremonies
mod Tokens
mod RecoveryCodes
mod Access
mod Hub
mod Config
mod Migrate
