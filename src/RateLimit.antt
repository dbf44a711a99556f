-- ===== src/RateLimit.antt =====
-- The token bucket rate limiter of shared/autosre_shared/resilience/rate_limiter.py.
pub mod Text
pub mod Bucket
pub mod Potential
pub mod Bound
pub mod Limiter
pub mod Replies
pub mod Clients
pub mod Spec
pub mod Reference
mod Tests
