-- ===== src/Resilience.antt =====
-- src/capabilityhub/resilience.py: retries and circuit breakers around provider calls.
pub mod Retry
pub mod Circuit
pub mod Executor
mod Tests
