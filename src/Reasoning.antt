-- ===== src/Reasoning.antt =====
-- src/capabilityhub/reasoning.py: the choice of a reasoning tier. The digest of a signature and
-- `str.strip().lower()` are parameters; a tier, a risk and the numbers are of their own types, so the
-- checks that convert them are absent.
mod Tiers
mod Reasons
mod Router
pub mod Floors
pub mod Caps
pub mod Attempts
mod Tests
unfoldable pub use Tiers.*
unfoldable pub use Reasons.*
unfoldable pub use Router.*
