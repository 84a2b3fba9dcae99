-- ===== src/Drained.antt =====
-- src/capabilityhub/drained_service.py: executions under a pin of the drain controller.
mod Bindings
mod Service
pub mod Tidy
pub mod Released
pub mod Dispatch
mod Tests
unfoldable pub use Bindings.*
unfoldable pub use Service.*
