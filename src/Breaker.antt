-- ===== src/Breaker.antt =====
-- The circuit breaker of shared/autosre_shared/resilience/circuit_breaker.py. A method takes the
-- clock's reading, where it reads it, and returns the new world; the methods that hold the lock are
-- single steps. Clock readings and timeouts are integers in one fixed unit.
mod Defs
mod Methods
pub mod Invariant
pub mod InPlace
pub mod Refinement
pub mod Events
pub mod History
pub mod Transitions
pub mod Protect
pub mod Registry
pub mod Snapshot
mod Tests
unfoldable pub use Methods.*
unfoldable pub use Defs.*
