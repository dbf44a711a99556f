-- ===== src/Service/Operations.antt =====
-- The routes of a service that `create_service_app` (shared/autosre_shared/app.py) builds: the system
-- endpoints, the control plane of chaos, the status routes, the failure log, and the service's own.
use Prim.Native.String.{◌++◌}
use auto_sre.Prelude.{◌≡◌, refl, true, Option, none, some}
use auto_sre.Prelude.Int.{ℤ}
use auto_sre.Prelude.Text.{String}
use auto_sre.Storage.Json.{Json}
use auto_sre.Storage.FileStore.{Codec, LogFile}
use auto_sre.Storage.Routes.{Listing, listing, server_error, list_failures, clear_failures}
use auto_sre.Chaos.Config.{LatencyConfig, ErrorConfig, CpuConfig, MemoryConfig}
use auto_sre.Chaos.Controller.{
  Controller, is_control, set_latency, set_errors, trigger_cpu, trigger_memory, reset,
}
use auto_sre.RateLimit.Limiter.{excluded}
use auto_sre.Observability.Red.{Ending, response, raised}
use auto_sre.Service.Endpoints.{ready}
use auto_sre.Service.Pipeline.{Service}

-- A request by its route, with the payload as the framework has admitted it. The last one is a route
-- of the service's own routers.
pub data Operation : Type 0 where
  get_health : Operation
  get_ready : Operation
  get_metrics : Operation
  post_latency : LatencyConfig → Operation
  post_errors : ErrorConfig → Operation
  post_cpu : CpuConfig → Operation
  post_memory : MemoryConfig → Operation
  post_reset : Operation
  get_chaos : Operation
  get_breakers : Operation
  get_limits : Operation
  get_failures : ℤ → Option String → Operation
  delete_failures : Operation
  business : String → Operation

-- The prefix of the router and the path of the route.
unfoldable pub path_of : Operation → String
path_of get_health = "/health"
path_of get_ready = "/ready"
path_of get_metrics = "/metrics"
path_of (post_latency cfg) = "/chaos" ++ "/latency"
path_of (post_errors cfg) = "/chaos" ++ "/errors"
path_of (post_cpu cfg) = "/chaos" ++ "/cpu"
path_of (post_memory cfg) = "/chaos" ++ "/memory"
path_of post_reset = "/chaos" ++ "/reset"
path_of get_chaos = "/chaos" ++ "/status"
path_of get_breakers = "/breaker" ++ "/status"
path_of get_limits = "/rate-limit" ++ "/status"
path_of (get_failures limit source) = "/failures" ++ ""
path_of delete_failures = "/failures" ++ ""
path_of (business path) = path

unfoldable method_of : Operation → String
method_of get_health = "GET"
method_of get_ready = "GET"
method_of get_metrics = "GET"
method_of (post_latency cfg) = "POST"
method_of (post_errors cfg) = "POST"
method_of (post_cpu cfg) = "POST"
method_of (post_memory cfg) = "POST"
method_of post_reset = "POST"
method_of get_chaos = "GET"
method_of get_breakers = "GET"
method_of get_limits = "GET"
method_of (get_failures limit source) = "GET"
method_of delete_failures = "DELETE"
method_of (business path) = "POST"

abbrev pub IsOperational : Operation → Type 0
IsOperational (business path) = ⊥
IsOperational get_health = Unit {0}
IsOperational get_ready = Unit {0}
IsOperational get_metrics = Unit {0}
IsOperational (post_latency cfg) = Unit {0}
IsOperational (post_errors cfg) = Unit {0}
IsOperational (post_cpu cfg) = Unit {0}
IsOperational (post_memory cfg) = Unit {0}
IsOperational post_reset = Unit {0}
IsOperational get_chaos = Unit {0}
IsOperational get_breakers = Unit {0}
IsOperational get_limits = Unit {0}
IsOperational (get_failures limit source) = Unit {0}
IsOperational delete_failures = Unit {0}

-- No operational route is subject to chaos or to the rate limiter.
pub path_of-exempt :
    (op : Operation)
    → IsOperational op
    → (is_control (path_of op) ≡ true) × (excluded (path_of op) ≡ true)
unfolding path_of is_control excluded
path_of-exempt get_health h = (refl, refl)
path_of-exempt get_ready h = (refl, refl)
path_of-exempt get_metrics h = (refl, refl)
path_of-exempt (post_latency cfg) h = (refl, refl)
path_of-exempt (post_errors cfg) h = (refl, refl)
path_of-exempt (post_cpu cfg) h = (refl, refl)
path_of-exempt (post_memory cfg) h = (refl, refl)
path_of-exempt post_reset h = (refl, refl)
path_of-exempt get_chaos h = (refl, refl)
path_of-exempt get_breakers h = (refl, refl)
path_of-exempt get_limits h = (refl, refl)
path_of-exempt (get_failures limit source) h = (refl, refl)
path_of-exempt delete_failures h = (refl, refl)
path_of-exempt (business path) h = absurd h

-- The part of a service that its handlers work on beside its chaos state and its limiter: the log of
-- failures, and what its own routes keep.
pub record Parts {L : Type 0} (codec : Codec L) (B : Type 0) : Type 0 where
  pub log : LogFile codec
  pub own : B

abbrev pub listed : Listing → Ending
listed (listing count events) = response 200
listed server_error = raised "AttributeError"

-- `check` is what the readiness check says, where there is one, and `own_route` the service's routes.
module _ {L B : Type 0} (codec : Codec L) (name : String) (check : B → Option Json)
    (own_route : String → B → B × Ending) where
  abbrev with_chaos : Service (Parts codec B) → Controller → Service (Parts codec B) × Ending
  with_chaos s chaos = (record s { chaos = chaos }, response 200)

  -- The handlers. What those of chaos report is added to the controller's events; that it is written to
  -- the log as well is left out.
  unfoldable pub handle : Operation → Service (Parts codec B) → Service (Parts codec B) × Ending
  handle get_health s = (s, response 200)
  handle get_ready s = (s, response (ready name s.chaos.state (check s.routes.own)).status_code)
  handle get_metrics s = (s, response 200)
  handle (post_latency cfg) s = with_chaos s (set_latency cfg s.chaos).0
  handle (post_errors cfg) s = with_chaos s (set_errors cfg s.chaos).0
  handle (post_cpu cfg) s = with_chaos s (trigger_cpu cfg s.chaos).0
  handle (post_memory cfg) s =
      let (chaos, reply) = trigger_memory cfg s.chaos in
      (record s { chaos = chaos }, elim reply [ none ↦ response 400 | some started ↦ response 200 ])
  handle post_reset s = with_chaos s (reset s.chaos).0
  handle get_chaos s = (s, response 200)
  handle get_breakers s = (s, response 200)
  handle get_limits s = (s, response 200)
  handle (get_failures limit source) s = (s, listed (list_failures codec limit source s.routes.log))
  handle delete_failures s = (
    record s { routes = record s.routes { log = clear_failures codec s.routes.log } },
    response 200,
  )
  handle (business path) s =
      let (own, ending) = own_route path s.routes.own in
      (record s { routes = record s.routes { own = own } }, ending)
