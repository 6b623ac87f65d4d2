-- ===== src/Core.antt =====
-- The crate resolve-core: identifiers, numbers, the commitment state machine, guards and planning.
pub mod Types
pub mod Equality
pub mod Error
pub mod Ids
pub mod Numbers
pub mod StateMachine
pub mod Goal
pub mod Commitment
pub mod Guards
pub mod Planning
pub mod Events
