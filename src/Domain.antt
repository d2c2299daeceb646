-- ===== src/Domain.antt =====
-- server/internal/domain: the models and the state machine of focus sessions.
pub mod Models
pub mod StateMachine
