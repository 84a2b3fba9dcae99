-- ===== src/Approvals/Scoped.antt =====
-- src/capabilityhub/approval_store.py: `ScopedApprovalStore`, whose rows stand under the digest of a
-- caller's scope and that of their identifier. The digests are parameters.
mod Rows
mod Methods
pub mod Apart
pub mod Isolation
pub mod Unseen
mod Tests
unfoldable pub use Rows.*
unfoldable pub use Methods.*
