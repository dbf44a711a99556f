-- ===== src/Service/Runs.antt =====
-- Runs of requests to every route of a service, the control plane of chaos among them, and what
-- Prometheus counts of them.
use auto_sre.Prelude.{
  ℕ, ◌+◌, ◌≡◌, refl, Bool, true, false, if◌then◌else◌, Option, none, some, List, [], ◌∷◌, All,
  arith, length,
}
use auto_sre.Prelude.Int.{ℤ}
use auto_sre.Prelude.Text.{String}
use auto_sre.Storage.Json.{Json}
use auto_sre.Storage.FileStore.{Codec}
use auto_sre.Storage.Routes.{Listing, listing, server_error, list_failures}
use auto_sre.Chaos.Controller.{
  Controller, set_latency, set_errors, trigger_cpu, trigger_memory, reset,
}
use auto_sre.Chaos.Config.{MemoryConfig}
use auto_sre.Chaos.State.{Snapshot}
use auto_sre.Observability.Red.{Metrics, Ending, response}
use auto_sre.Service.Endpoints.{ready}
use auto_sre.Service.Tally.{with_status, of_type, IsPlain}
use auto_sre.Service.Pipeline.{Service, Arrival}
use auto_sre.Service.Operations.{
  Operation, get_health, get_ready, get_metrics, post_latency, post_errors, post_cpu, post_memory,
  post_reset, get_chaos, get_breakers, get_limits, get_failures, delete_failures, business, Parts,
  listed, handle,
}
use auto_sre.Service.Gateway.{serve_operation}
use auto_sre.Service.Ledger.{IsCounted, serve-Balanced}

listed-IsPlain : (l : Listing) → IsPlain (listed l)
listed-IsPlain (listing count events) = (refl, refl)
listed-IsPlain server_error = refl

trigger_memory-injections :
    (cfg : MemoryConfig) (c : Controller)
    → (trigger_memory cfg c).0.error_injections ≡ c.error_injections
unfolding trigger_memory
trigger_memory-injections cfg c = ground arith

reply_of_memory-IsPlain :
    (reply : Option Snapshot)
    → IsPlain (elim reply [ none ↦ response 400 | some started ↦ response 200 ])
reply_of_memory-IsPlain none = (refl, refl)
reply_of_memory-IsPlain (some started) = (refl, refl)

module _ {L B : Type 0} (one : ℤ) (second : ℕ) (codec : Codec L) (name : String)
    (check : B → Option Json) (own_route : String → B → B × Ending) where
  -- The requests of a service one after the other.
  unfoldable pub serve_all :
      Bool
      → List (Operation × Arrival)
      → Metrics × Service (Parts codec B)
      → Metrics × Service (Parts codec B)
  serve_all enabled [] ms = ms
  serve_all enabled ((op, arrival) ∷ arrivals) ms =
      serve_all enabled arrivals
        (serve_operation one second codec name check own_route op enabled arrival ms).0

  module _ (plain : (path : String) (b : B) → IsPlain (own_route path b).1) where
    -- No handler counts a rejection or an injected error.
    handle-IsCounted :
        (op : Operation) → IsCounted {A = Parts codec B} (handle codec name check own_route op)
    unfolding handle ready set_latency set_errors trigger_cpu reset
    handle-IsCounted get_health s = (refl, refl, (refl, refl))
    handle-IsCounted get_ready s =
        (refl, refl, readiness (ready name s.chaos.state (check s.routes.own)).ready)
      where
        readiness : (ok : Bool) → IsPlain (response (if ok then 200 else 503))
        readiness true = (refl, refl)
        readiness false = (refl, refl)
    handle-IsCounted get_metrics s = (refl, refl, (refl, refl))
    handle-IsCounted (post_latency cfg) s = (refl, refl, (refl, refl))
    handle-IsCounted (post_errors cfg) s = (refl, refl, (refl, refl))
    handle-IsCounted (post_cpu cfg) s = (refl, refl, (refl, refl))
    handle-IsCounted (post_memory cfg) s = (
      refl,
      trigger_memory-injections cfg s.chaos,
      reply_of_memory-IsPlain (trigger_memory cfg s.chaos).1,
    )
    handle-IsCounted post_reset s = (refl, refl, (refl, refl))
    handle-IsCounted get_chaos s = (refl, refl, (refl, refl))
    handle-IsCounted get_breakers s = (refl, refl, (refl, refl))
    handle-IsCounted get_limits s = (refl, refl, (refl, refl))
    handle-IsCounted (get_failures limit source) s =
        (refl, refl, listed-IsPlain (list_failures codec limit source s.routes.log))
    handle-IsCounted delete_failures s = (refl, refl, (refl, refl))
    handle-IsCounted (business path) s = (refl, refl, plain path s.routes.own)

    -- Over any run of requests, to the routes that set, start and reset chaos as to all others, of a
    -- service whose own routes answer neither 429 nor 500, raise no OverflowError and are not
    -- interrupted: the rate limiter's count of rejections grows by the requests that Prometheus counts
    -- with 429 and by the OverflowErrors that it counts, and chaos' count of injected errors by the
    -- requests counted with 500, less the exceptions. Prometheus and the limiter see the same path.
    pub serve_all-Balanced :
        (enabled : Bool) (arrivals : List (Operation × Arrival)) (m : Metrics)
        (s : Service (Parts codec B))
        → All (λ a. a.1.request.path ≡ a.1.call.path) arrivals
        → let (m', s') = serve_all enabled arrivals (m, s) in
          (s'.limiter.rejections_total
              + with_status 429 m.requests
              + of_type "OverflowError" m.exceptions
            ≡ s.limiter.rejections_total
              + with_status 429 m'.requests
              + of_type "OverflowError" m'.exceptions)
          × (s'.chaos.error_injections + with_status 500 m.requests + length m'.exceptions
              ≡ s.chaos.error_injections + with_status 500 m'.requests + length m.exceptions)
    unfolding serve_all
    serve_all-Balanced enabled [] m s same = (omega arith, omega arith)
    serve_all-Balanced enabled ((op, arrival) ∷ arrivals) m s (first, rest) =
        let (m', s') =
          (serve_operation one second codec name check own_route op enabled arrival (m, s)).0 in
        let (r, e) =
          serve-Balanced one second (λ req. handle codec name check own_route op)
            (λ req. handle-IsCounted op) enabled arrival m s first in
        let (r', e') = serve_all-Balanced enabled arrivals m' s' rest in (omega arith, omega arith)
