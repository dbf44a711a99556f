-- ===== src/Service/Ledger.antt =====
-- The errors that Prometheus shows against what chaos and the rate limiter say of themselves.
use auto_sre.Prelude.{
  ℕ, ◌+◌, ◌≡◌, refl, Bool, true, false, [], ◌∷◌, ◌++◌, arith, ◌==◌, Bool-cases, inl, inr, length,
  length-append,
}
use auto_sre.Prelude.Int.{ℤ}
use auto_sre.Prelude.Text.{String, str_eq, eq_iff}
use auto_sre.Chaos.Controller.{Controller, apply_request_chaos}
use auto_sre.RateLimit.Limiter.{
  Reply, Request, forwarded, too_many_requests, overflow_error, dispatch, excluded,
}
use auto_sre.RateLimit.Clients.{is_refused, dispatch_counts}
use auto_sre.Observability.Red.{
  Call, route_label, Metrics, Ending, response, raised, interrupted, status_of,
}
use auto_sre.Observability.Accounts.{exceptions_of}
use auto_sre.Service.Tally.{
  tally, with_status, of_type, with_status-append, of_type-append, IsPlain,
}
use auto_sre.Service.Gateway.{serve-metrics, limited-excluded}
use auto_sre.Service.Pipeline.{
  Service, Arrival, after_limit, limited, serve, answered, serve_accounts, serve-answered,
}

error_injections-apply :
    (path : String) (c : Controller)
    → let (c', hit) = apply_request_chaos path c in
      c'.error_injections ≡ c.error_injections + tally hit
unfolding apply_request_chaos
error_injections-apply path c = ground arith

-- What a route does to the counts of the limiter and of chaos: nothing, and its ending is plain.
abbrev pub IsCounted : {A : Type 0} → (Service A → Service A × Ending) → Type 0
IsCounted {A} route =
    (s : Service A)
    → let (s', ending) = route s in
      (s'.limiter.rejections_total ≡ s.limiter.rejections_total)
      × (s'.chaos.error_injections ≡ s.chaos.error_injections)
      × IsPlain ending

module _ {A : Type 0} (one : ℤ) (second : ℕ) (own_route : Request → Service A → Service A × Ending)
    (kept : (req : Request) → IsCounted (own_route req)) where
  -- The exceptions among the endings, and those of the limiter.
  abbrev raises : Ending → ℕ
  raises (response status) = 0
  raises (raised kind) = 1
  raises interrupted = 0

  abbrev overflows : Ending → ℕ
  overflows (response status) = 0
  overflows (raised kind) = tally (str_eq kind "OverflowError")
  overflows interrupted = 0

  -- What one request adds to the tallies.
  abbrev Tallied : Service A → Service A → Ending → Type 0
  Tallied s s' ending =
      (s'.limiter.rejections_total
        ≡ s.limiter.rejections_total + tally (status_of ending == 429) + overflows ending)
      × (s'.chaos.error_injections + raises ending
          ≡ s.chaos.error_injections + tally (status_of ending == 500))

  own_route-Tallied :
      (req : Request) (s : Service A) → Tallied s (own_route req s).0 (own_route req s).1
  own_route-Tallied req s =
      let (rejections, injections, plain) = kept req s in
      rw (rejections, injections) (go (own_route req s).1 plain)
    where
      go :
          (e : Ending)
          → IsPlain e
          → (s.limiter.rejections_total
              ≡ s.limiter.rejections_total + tally (status_of e == 429) + overflows e)
            × (s.chaos.error_injections + raises e
                ≡ s.chaos.error_injections + tally (status_of e == 500))
      go (response status) (a, b) = rw (a, b) (omega arith, omega arith)
      go (raised kind) a = rw a (omega arith, omega arith)
      go interrupted h = absurd h

  after_limit-Tallied :
      (req : Request) (reply : Reply) (s : Service A)
      → let (s', ending) = after_limit one second own_route req reply s in
        (s'.limiter.rejections_total + is_refused reply
          ≡ s.limiter.rejections_total + tally (status_of ending == 429) + overflows ending)
        × (s'.chaos.error_injections + raises ending
            ≡ s.chaos.error_injections + tally (status_of ending == 500))
  unfolding after_limit
  after_limit-Tallied req forwarded s = omega (arith, own_route-Tallied req s)
  after_limit-Tallied req (too_many_requests n) s = omega arith
  after_limit-Tallied req overflow_error s = omega arith

  limited-Tallied :
      (enabled : Bool) (arrival : Arrival) (s : Service A)
      → let (s', ending) = limited one second own_route enabled arrival s in Tallied s s' ending
  unfolding limited
  limited-Tallied false arrival s = own_route-Tallied arrival.request s
  limited-Tallied true arrival s =
      let (l, reply) = dispatch one second arrival.now arrival.request s.limiter in
      let (_, rejections, _) = dispatch_counts one second arrival.now arrival.request s.limiter in
      omega
        (arith, rejections, after_limit-Tallied arrival.request reply (record s { limiter = l }))

  answered-Tallied :
      (enabled : Bool) (arrival : Arrival) (s : Service A)
      → let (s', ending) = answered one second own_route enabled arrival s in Tallied s s' ending
  unfolding answered
  answered-Tallied enabled arrival s =
      let path = arrival.call.path in
      let injections = error_injections-apply path s.chaos in
      elim (Bool-cases (apply_request_chaos path s.chaos).1) [
        | inl hit ↦ rw (answered, hit) (omega arith, ground arith)
        | inr passed ↦
            let (r, e) =
              limited-Tallied enabled arrival
                (record s { chaos = (apply_request_chaos path s.chaos).0 }) in
            rw (answered, passed) (r, ground arith)
      ]

  -- The counts of rejections and injections are those of the metrics, from a start on.
  abbrev pub Balanced : Metrics × Service A → Metrics × Service A → Type 0
  Balanced (m, s) (m', s') =
      (s'.limiter.rejections_total
          + with_status 429 m.requests
          + of_type "OverflowError" m.exceptions
        ≡ s.limiter.rejections_total
          + with_status 429 m'.requests
          + of_type "OverflowError" m'.exceptions)
      × (s'.chaos.error_injections + with_status 500 m.requests + length m'.exceptions
          ≡ s.chaos.error_injections + with_status 500 m'.requests + length m.exceptions)

  exceptions_raised :
      (call : Call) (ending : Ending)
      → (length (exceptions_of call ending) ≡ raises ending)
        × (of_type "OverflowError" (exceptions_of call ending) ≡ overflows ending)
  exceptions_raised call (response status) = (refl, refl)
  exceptions_raised call (raised kind) = (refl, omega arith)
  exceptions_raised call interrupted = (refl, refl)

  -- The metrics after one more request that ended so.
  abbrev counted_call : Call → Ending → Metrics → Metrics
  counted_call call ending m = record m {
    requests = m.requests ++ (call.method, route_label call, status_of ending) ∷ [];
    exceptions = m.exceptions ++ exceptions_of call ending;
  }

  Tallied-Balanced :
      (call : Call) (m : Metrics) (s s' : Service A) (ending : Ending)
      → Tallied s s' ending
      → Balanced (m, s) (counted_call call ending m, s')
  Tallied-Balanced call m s s' ending (r, e) =
      let (raised_once, overflowed) = exceptions_raised call ending in
      let status = status_of ending in
      let label = route_label call in
      (
        omega (
          arith,
          r,
          overflowed,
          with_status-append 429 status m.requests call.method label,
          of_type-append "OverflowError" m.exceptions (exceptions_of call ending),
        ),
        omega (
          arith,
          e,
          raised_once,
          with_status-append 500 status m.requests call.method label,
          length-append m.exceptions (exceptions_of call ending),
        ),
      )

  serve-counted :
      (enabled : Bool) (arrival : Arrival) (m : Metrics) (s : Service A)
      → str_eq arrival.call.path "/metrics" ≡ false
      → Balanced (m, s) (serve one second own_route enabled arrival (m, s)).0
  serve-counted enabled arrival m s counted =
      let (requests, exceptions, _) =
        serve_accounts one second own_route enabled arrival m s counted in
      let (same, same_ending) = serve-answered one second own_route enabled arrival m s counted in
      let tallied = answered-Tallied enabled arrival s in
      let balanced =
        Tallied-Balanced arrival.call m s (answered one second own_route enabled arrival s).0
          (answered one second own_route enabled arrival s).1 tallied in
      rw (requests, exceptions, same, same_ending) balanced

  -- A request to GET /metrics, which is not counted.
  serve-uncounted :
      (enabled : Bool) (arrival : Arrival) (m : Metrics) (s : Service A)
      → str_eq arrival.call.path "/metrics" ≡ true
      → arrival.request.path ≡ arrival.call.path
      → Balanced (m, s) (serve one second own_route enabled arrival (m, s)).0
  unfolding excluded
  serve-uncounted enabled arrival m s metrics same_path =
      let scraped : arrival.call.path ≡ "/metrics" =
        (eq_iff arrival.call.path "/metrics").0 metrics in
      let free : excluded arrival.request.path ≡ true = rw (same_path, scraped) refl in
      let (unchanged, left, _) = serve-metrics one second own_route enabled arrival m s metrics in
      let (rejections, injections, _) = kept arrival.request s in
      rw (unchanged, left, limited-excluded one second own_route enabled arrival s free)
        (omega (arith, rejections), omega (arith, injections))

  pub serve-Balanced :
      (enabled : Bool) (arrival : Arrival) (m : Metrics) (s : Service A)
      → arrival.request.path ≡ arrival.call.path
      → Balanced (m, s) (serve one second own_route enabled arrival (m, s)).0
  serve-Balanced enabled arrival m s same_path =
      elim (Bool-cases (str_eq arrival.call.path "/metrics")) [
        | inl metrics ↦ serve-uncounted enabled arrival m s metrics same_path
        | inr counted ↦ serve-counted enabled arrival m s counted
      ]
