-- ===== src/Worker.antt =====
-- The worker service (worker/main.py).
pub mod Job
pub mod Rates
pub mod Loop
mod Tests
