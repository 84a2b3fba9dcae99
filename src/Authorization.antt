-- ===== src/Authorization.antt =====
-- src/capabilityhub/authorization.py: the grants of a caller, each with its constraint, and the
-- decision whether a capability may run with its arguments.
mod Names
mod Constraints
mod Arguments
mod Deciding
pub mod Reasons
pub mod Eligible
pub mod Granted
pub mod Returning
pub mod Permitted
mod Tests
unfoldable pub use Names.*
unfoldable pub use Constraints.*
unfoldable pub use Arguments.*
unfoldable pub use Deciding.*
