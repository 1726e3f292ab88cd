-- ===== src/Models.antt =====
-- src/models.rs: the event and state vocabulary of the runtime, with its validators.
pub mod EventType
pub mod TaskState
pub mod Failure
pub mod Event
pub mod Guard
pub mod Payload
pub mod Tokens
pub mod Records
