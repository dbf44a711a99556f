-- ===== src/Chaos.antt =====
-- The chaos framework of shared/autosre_shared/chaos.py.
pub mod State
pub mod Config
pub mod Errors
pub mod Controller
pub mod Steps
pub mod Memory
pub mod Control
pub mod Workloads
pub mod Overlaps
pub mod Audit
mod Tests
