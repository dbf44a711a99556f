-- ===== src/Service/Pipeline.antt =====
-- The middlewares in the order of `create_service_app` (shared/autosre_shared/app.py), below the two
-- that only add headers: PrometheusMiddleware with the chaos hook, around RateLimitMiddleware where
-- it is enabled, around the routes.
use auto_sre.Prelude.{
  ℕ, ◌≡◌, ◌≢◌, ◌⊎◌, inl, inr, refl, ap, Bool-cases, Bool, true, false, Option, none, some, [], ◌∷◌,
  ◌++◌, if◌then◌else◌,
}
use auto_sre.Prelude.Int.{ℤ}
use auto_sre.Prelude.Text.{String, str_eq}
use auto_sre.Chaos.Controller.{Controller, apply_request_chaos}
use auto_sre.RateLimit.Limiter.{
  Limiter, Request, Reply, forwarded, too_many_requests, overflow_error,
}
use auto_sre.RateLimit.Limiter as Limiter
use auto_sre.Observability.Red.{
  Metrics, Ending, response, raised, Call, dispatch, route_label, status_of, attempt,
}
use auto_sre.Observability.Accounts.{dispatch_accounts, exceptions_of}

-- The state of one service: its chaos controller, its limiter, and what its routes work on.
pub record Service (A : Type 0) : Type 0 where
  pub chaos : Controller
  pub limiter : Limiter
  pub routes : A

-- A request: as Prometheus sees it, as the limiter sees it, and the time of its arrival there.
pub record Arrival : Type 0 where
  pub call : Call
  pub request : Request
  pub now : ℤ

-- `one` is the number of units of a token, and `second` that of clock units in a second; `route`, the
-- handler of a request, works on the whole service, and answers or ends in an exception.
module _ {A : Type 0} (one : ℤ) (second : ℕ)
    (route : Request → Service A → Service A × Ending) where
  -- The chaos hook; an injected answer is a 500.
  pub chaos_hook : String → Service A → Service A × Option ℕ
  chaos_hook path s =
      let (chaos, hit) = apply_request_chaos path s.chaos in
      (record s { chaos = chaos }, if hit then some 500 else none)

  -- What the limiter's reply becomes.
  unfoldable pub after_limit : Request → Reply → Service A → Service A × Ending
  after_limit req forwarded s = route req s
  after_limit req (too_many_requests retry) s = (s, response 429)
  after_limit req overflow_error s = (s, raised "OverflowError")

  unfoldable pub limited : Bool → Arrival → Service A → Service A × Ending
  limited enabled arrival s =
      if enabled
      then (let (limiter, reply) =
            Limiter.dispatch one second arrival.now arrival.request s.limiter in
          after_limit arrival.request reply (record s { limiter = limiter }))
      else route arrival.request s

  abbrev around :
      (Service A → Service A × Ending) → Metrics × Service A → (Metrics × Service A) × Ending
  around app (m, s) = let (s', ending) = app s in ((m, s'), ending)

  -- A request to the service that `create_service_app(enable_rate_limit=enabled)` builds.
  unfoldable pub serve : Bool → Arrival → Metrics × Service A → (Metrics × Service A) × Ending
  serve enabled arrival =
      dispatch arrival.call (some (chaos_hook arrival.call.path)) (around (limited enabled arrival))

  -- Every request but those of /metrics is counted once by Prometheus, under the status that the
  -- client gets, whether chaos injected it, the limiter refused the request (429) or a route answered,
  -- and under 500 if an exception came out. It is counted as an exception exactly if an `Exception`
  -- came out, and the number of requests in progress is afterwards what it was.
  pub serve_accounts :
      (enabled : Bool) (arrival : Arrival) (m : Metrics) (s : Service A)
      → str_eq arrival.call.path "/metrics" ≡ false
      → let ((m', s'), ending) = serve enabled arrival (m, s) in
        (m'.requests
          ≡ m.requests ++ (arrival.call.method, route_label arrival.call, status_of ending) ∷ [])
        × (m'.exceptions ≡ m.exceptions ++ exceptions_of arrival.call ending)
        × ((k : String) → m'.in_progress k ≡ m.in_progress k)
  unfolding serve
  serve_accounts enabled arrival m s counted =
      let (requests, durations, exceptions, in_progress) =
        dispatch_accounts arrival.call (some (chaos_hook arrival.call.path))
          (around (limited enabled arrival)) m s (λ s. refl) counted in
      (requests, exceptions, in_progress)

  -- What the client gets, and the state after it, without the metrics.
  unfoldable pub answered : Bool → Arrival → Service A → Service A × Ending
  answered enabled arrival s =
      let (chaos, hit) = apply_request_chaos arrival.call.path s.chaos in
      if hit
      then (record s { chaos = chaos }, response 500)
      else limited enabled arrival (record s { chaos = chaos })

  pub serve-answered :
      (enabled : Bool) (arrival : Arrival) (m : Metrics) (s : Service A)
      → str_eq arrival.call.path "/metrics" ≡ false
      → let ((m', s'), ending) = serve enabled arrival (m, s) in
        (s' ≡ (answered enabled arrival s).0) × (ending ≡ (answered enabled arrival s).1)
  unfolding serve dispatch answered attempt chaos_hook
  serve-answered enabled arrival m s counted =
      elim (Bool-cases (apply_request_chaos arrival.call.path s.chaos).1) [
        | inl hit ↦ rw (counted, attempt, chaos_hook, hit) (refl, refl)
        | inr passed ↦ rw (counted, attempt, chaos_hook, passed) (refl, refl)
      ]

  -- A request that chaos answers with its 500 spends no token of the client and does not reach the
  -- routes.
  pub injected_before_limit :
      (enabled : Bool) (arrival : Arrival) (m : Metrics) (s : Service A)
      → str_eq arrival.call.path "/metrics" ≡ false
      → (apply_request_chaos arrival.call.path s.chaos).1 ≡ true
      → let ((m', s'), ending) = serve enabled arrival (m, s) in
        (ending ≡ response 500) × (s'.limiter ≡ s.limiter) × (s'.routes ≡ s.routes)
  unfolding answered
  injected_before_limit enabled arrival m s counted hit =
      let (same, same_ending) = serve-answered enabled arrival m s counted in
      rw (same, same_ending, hit) (refl, refl, refl)

  after_refusal :
      (req : Request) (reply : Reply) (s : Service A)
      → reply ≢ forwarded
      → let (s', ending) = after_limit req reply s in
        (s' ≡ s) × ((ending ≡ response 429) ⊎ (ending ≡ raised "OverflowError"))
  unfolding after_limit
  after_refusal req forwarded s refused = absurd (refused refl)
  after_refusal req (too_many_requests retry) s refused = (refl, inl refl)
  after_refusal req overflow_error s refused = (refl, inr refl)

  answered_refused :
      (arrival : Arrival) (s : Service A)
      → (Limiter.dispatch one second arrival.now arrival.request s.limiter).1 ≢ forwarded
      → let (s', ending) = answered true arrival s in
        (s'.routes ≡ s.routes)
        × ((ending ≡ response 500) ⊎ (ending ≡ response 429) ⊎ (ending ≡ raised "OverflowError"))
  unfolding answered limited
  answered_refused arrival s refused =
      let (chaos, hit) = apply_request_chaos arrival.call.path s.chaos in
      let (limiter, reply) = Limiter.dispatch one second arrival.now arrival.request s.limiter in
      elim (Bool-cases hit) [
        | inl injected ↦ rw injected (refl, inl refl)
        | inr passed ↦
            let (kept, ending) =
              after_refusal arrival.request reply (record s { chaos = chaos; limiter = limiter })
                refused in
            rw passed (ap (λ t. t.routes) kept, inr ending)
      ]

  -- The routes run only for a request that the limiter forwards: where it is enabled and does not
  -- forward, the routes' state is left alone, and the request ends with 429 or in an OverflowError,
  -- unless chaos answers it with its 500.
  pub refused_before_routes :
      (arrival : Arrival) (m : Metrics) (s : Service A)
      → str_eq arrival.call.path "/metrics" ≡ false
      → (Limiter.dispatch one second arrival.now arrival.request s.limiter).1 ≢ forwarded
      → let ((m', s'), ending) = serve true arrival (m, s) in
        (s'.routes ≡ s.routes)
        × ((ending ≡ response 500) ⊎ (ending ≡ response 429) ⊎ (ending ≡ raised "OverflowError"))
  refused_before_routes arrival m s counted refused =
      let (same, same_ending) = serve-answered true arrival m s counted in
      rw (same, same_ending) (answered_refused arrival s refused)
