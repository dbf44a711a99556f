-- ===== src/Storage.antt =====
-- The failure log of shared/autosre_shared/storage/failure_store.py: the events that the services
-- report, and the file that keeps them.
pub mod Json
pub mod Source
pub mod Event
pub mod FileStore
pub mod Reading
pub mod Damage
pub mod Routes
pub mod Recording
pub mod Store
pub mod Backend
mod Tests
pub use Json.*
pub use Event.*
pub use FileStore.*
