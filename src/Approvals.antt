-- ===== src/Approvals.antt =====
-- src/capabilityhub/approval_store.py: durable approvals, each bound to one intent and used once.
pub mod Records
pub mod Store
pub mod Evolution
pub mod Lifecycle
pub mod Settling
pub mod Consuming
pub mod Once
pub mod Flow
pub mod Scoped
mod Tests
unfoldable pub use Records.*
unfoldable pub use Store.*
