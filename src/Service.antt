-- ===== src/Service.antt =====
-- What every service is built of: the environment check, the system endpoints and the order of the
-- middlewares (envcheck.py, observability/endpoints.py and app.py of shared/autosre_shared).
pub mod Env
pub mod Endpoints
pub mod Pipeline
pub mod Operations
pub mod Gateway
pub mod Tally
pub mod Ledger
pub mod Runs
pub mod Lifespan
pub mod Startup
pub mod Started
mod Tests
