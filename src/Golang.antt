-- ===== src/Golang.antt =====
-- The Go services of the repository, beside the Python ones: the middlewares of
-- internal/middleware/middleware.go, the order route of internal/handlers/orders.go with its client
-- (internal/clients/auth.go), and the network daemon's prober (internal/prober, pkg/netcheck).
pub mod Middleware
pub mod Context
pub mod Served
pub mod Client
pub mod Hops
pub mod Orders
pub mod Agreement
pub mod Contract
pub mod Prober
pub mod Counts
pub mod Results
pub mod Probes
pub mod Config
pub mod Settings
pub mod Network
mod Tests
