-- ===== src/Lib.antt =====
-- Verification of the services of AutoSRE: the shared platform library
-- (shared/autosre_shared), the worker (worker/main.py), the API (api/main.py), the Auth service
-- (auth/main.py), and the script that checks the dashboards and rules
-- (scripts/validate_observability.py), all in Python, and of the Go services under internal/ and pkg/.
--
-- The program and the files that model it:
-- - Breaker: the circuit breaker of shared/autosre_shared/resilience/circuit_breaker.py. Defs has
--   BreakerState, BreakerRecord, BreakerStore and the metrics; Methods has allow, record_success,
--   record_failure, _reject and _exit; Protect the call under the breaker (protect, guard, call);
--   InPlace the methods over InMemoryStore, whose record they change in place; Registry
--   get_or_create and its neighbours; Snapshot the status route; History what the log of
--   failures tells of a breaker.
-- - RateLimit: shared/autosre_shared/resilience/rate_limiter.py. Bucket has the token buckets of
--   InMemoryBucketStore, Limiter the RateLimiter, the client's key and RateLimitMiddleware.
--   Potential has what a bucket can give, Spec one bucket for one client, Reference a bucket that is
--   filled on every tick.
-- - Storage: shared/autosre_shared/storage/failure_store.py. Event has FailureEvent, FileStore the
--   file of JSON lines, Routes the store of the process and the routes under /failures, Recording
--   a run of reports, Damage lines that are no events; Store the interface
--   FailureStore, which Backend fills with the file. The other components report events as values
--   of Emitted, the arguments of record_event.
-- - Chaos: shared/autosre_shared/chaos.py. State has ChaosState, Config the validated payloads,
--   Controller the request hook, the background tasks and the control handlers, Steps their
--   interleavings, Workloads the loops inside the background tasks, Overlaps what comes between the
--   steps of a request or a workload, Audit what the reported events tell.
-- - Worker: worker/main.py. Job has _process_job against the shared chaos state, with cancellation
--   at its sleeps; Loop has _job_loop as a task with _startup and _shutdown.
-- - Observability: shared/autosre_shared/observability/middleware.py. Asgi has the request context
--   and the security headers, with the context variables of shared/autosre_shared/context.py;
--   Headers the headers that a call to another service carries; Red PrometheusMiddleware; Logging
--   and Configure JsonFormatter and configure_logging of shared/autosre_shared/logging.py.
-- - Service: what app.py, envcheck.py and observability/endpoints.py of shared/autosre_shared make of
--   the parts. Env has validate_env, Endpoints /health and /ready, Pipeline the middlewares around
--   the routes in their order, Operations the routes with their paths and
--   handlers, Gateway what reaches them, Ledger, Runs and Tally what the metrics say, Lifespan the
--   application's lifespan with its hooks, Startup what the
--   main.py of each service reads of the environment, Started how that ends.
-- - Orders: api/main.py and auth/main.py. Token has the token of an order, Create create_order and
--   _readiness, Validate validate, Chain the call from one to the other through HTTPServiceClient
--   (shared/autosre_shared/clients/service_client.py), Client that class over a transport; Programs
--   what the two files do at import and at the end; Outage has
--   orders while their calls fail, Recovery once they succeed again, Overlong those with a token
--   that is refused, Injected those while chaos runs in the Auth service.
-- - Golang: the Go services beside them. Middleware has internal/middleware/middleware.go in the order
--   of internal/router/router.go, with what a request sees of it in Context and Served; Orders
--   internal/handlers/orders.go and Client internal/clients/auth.go, with what they share with
--   api/main.py in Agreement and Contract; Hops chains of calls through services of both languages;
--   Config internal/config/config.go, with Settings on what it makes of an environment of which Python makes its limiter and
--   Network the daemon's part of it;
--   Prober the checks of pkg/netcheck and internal/prober, with their counters in Counts, Results and
--   Probes.
-- - Validate: scripts/validate_observability.py. Values has how it reads parsed documents,
--   Dashboards and Rules its checks, Script the whole; SoundDashboards, Findings, SoundRule and
--   SoundRules are about its checks where they find nothing, Sound about the script.
-- - Prelude: numbers, integers, lists and texts that the components share.
--
-- A method that changes an object takes the object as a record and returns the new one. Everything
-- that holds a lock, and everything between two awaits, is one step; other requests come in as
-- further steps in any order.
--
-- Numbers: Python's floats are integers in fixed units here (clock units, token units, microseconds,
-- rates in 1/100_000_000), exact where the float operations round; the rounding is not modelled, so
-- a decision at the very edge (an accumulator that reaches 1.0 by sums of 0.1) can fall one call
-- later in the program; Chaos/Errors.antt has the accumulator of chaos with its rounding. Thresholds
-- of the breaker are natural numbers: a negative one acts as 0. What the handlers of chaos report
-- stays in the controller's list of events, also where the log of failures is modelled beside it.
-- `round(x, 2)`, the json module, os.getenv, and int and float on texts are parameters, with the
-- behaviour that a theorem needs among its hypotheses; so are the decoders of JSON and YAML and the
-- parsers of numbers and durations that the Go services use.
--
-- The loops of the program are recursions on lists, texts or counters, but for the busy loop of CPU
-- chaos, which runs until a clock says so: `cpu_burn` takes fuel, and with a clock that gains one
-- unit in `r` readings one unit more than `r` for each unit up to the deadline is enough.
--
-- Not modelled: when a log line is written, the HTTP framework with the matching of paths to routes,
-- pydantic beyond the bounds of the fields, metrics exposition, the readers of JSON and YAML,
-- the constant answers of the Go services and the start and stop of their servers.
mod Prelude
pub mod Storage
pub mod Breaker
pub mod RateLimit
pub mod Chaos
pub mod Worker
pub mod Observability
pub mod Service
pub mod Orders
pub mod Golang
pub mod Validate
