-- ===== src/Idempotency.antt =====
-- src/capabilityhub/idempotency.py: durable records of executions, so that a repeated one is not run
-- again.
mod Records
mod Store
pub mod Reserving
pub mod Replay
pub mod Waiting
mod Tests
unfoldable pub use Records.*
unfoldable pub use Store.*
