-- ===== src/Orders.antt =====
-- The order route of the API service and the token route of the Auth service (api/main.py,
-- auth/main.py), each behind its circuit breaker.
pub mod Token
pub mod Create
pub mod Validate
pub mod Chain
pub mod Outage
pub mod Recovery
pub mod Overlong
pub mod Client
pub mod Injected
pub mod Programs
mod Tests
