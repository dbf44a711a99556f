-- ===== src/Observability.antt =====
-- The middlewares and metrics of shared/autosre_shared/observability.
pub mod Asgi
pub mod Red
pub mod Headers
pub mod Accounts
pub mod Logging
pub mod Configure
mod Tests
