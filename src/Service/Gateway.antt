-- ===== src/Service/Gateway.antt =====
-- What the middlewares let through: operational requests at any time, and all requests again once
-- chaos was reset.
use auto_sre.Prelude.{◌≡◌, refl, ◌∙◌, ap, Bool, true, false, Option, Bool-cases, inl, inr}
use auto_sre.Prelude.Int.{ℤ}
use auto_sre.Prelude.Text.{String, str_eq}
use auto_sre.Prelude.{ℕ}
use auto_sre.Storage.Json.{Json}
use auto_sre.Storage.FileStore.{Codec}
use auto_sre.Chaos.Controller.{Controller, apply_request_chaos, is_control, reset}
use auto_sre.Chaos.Control.{quiet_request}
use auto_sre.RateLimit.Limiter.{Limiter, Request, forwarded, excluded, dispatch}
use auto_sre.Observability.Red.{Metrics, Ending, response}
use auto_sre.Observability.Red as Red
use auto_sre.Service.Pipeline.{
  Service, Arrival, serve, limited, after_limit, answered, serve-answered,
}
use auto_sre.Service.Operations.{
  Operation, post_reset, path_of, IsOperational, path_of-exempt, Parts, handle,
}

apply-exempt :
    (path : String) (c : Controller)
    → is_control path ≡ true
    → apply_request_chaos path c ≡ (c, false)
unfolding apply_request_chaos
apply-exempt path c control = rw control refl

dispatch-excluded :
    (one : ℤ) (second : ℕ) (now : ℤ) (req : Request) (l : Limiter)
    → excluded req.path ≡ true
    → dispatch one second now req l ≡ (l, forwarded)
unfolding dispatch
dispatch-excluded one second now req l ex = rw ex refl

module _ {A : Type 0} (one : ℤ) (second : ℕ)
    (route : Request → Service A → Service A × Ending) where
  pub limited-excluded :
      (enabled : Bool) (arrival : Arrival) (s : Service A)
      → excluded arrival.request.path ≡ true
      → limited one second route enabled arrival s ≡ route arrival.request s
  unfolding limited after_limit
  limited-excluded false arrival s ex = refl
  limited-excluded true arrival s ex =
      rw (dispatch-excluded one second arrival.now arrival.request s.limiter ex) refl

  -- A request to GET /metrics, which the outermost middleware passes on.
  pub serve-metrics :
      (enabled : Bool) (arrival : Arrival) (m : Metrics) (s : Service A)
      → str_eq arrival.call.path "/metrics" ≡ true
      → let ((m', s'), ending) = serve one second route enabled arrival (m, s) in
        let (t, answer) = limited one second route enabled arrival s in
        (m' ≡ m) × (s' ≡ t) × (ending ≡ answer)
  unfolding serve Red.dispatch
  serve-metrics enabled arrival m s metrics = rw metrics (refl, refl, refl)

  serve-passed :
      (enabled : Bool) (arrival : Arrival) (m : Metrics) (s : Service A)
      → apply_request_chaos arrival.call.path s.chaos ≡ (s.chaos, false)
      → let ((m', s'), ending) = serve one second route enabled arrival (m, s) in
        let (t, answer) = limited one second route enabled arrival s in (s' ≡ t) × (ending ≡ answer)
  unfolding answered
  serve-passed enabled arrival m s passed =
      elim (Bool-cases (str_eq arrival.call.path "/metrics")) [
        | inl metrics ↦
            let (_, same, same_ending) = serve-metrics enabled arrival m s metrics in
            (same, same_ending)
        | inr counted ↦
            let (same, same_ending) = serve-answered one second route enabled arrival m s counted in
            rw (same, same_ending, passed) (refl, refl)
      ]

-- An arrival is for an operation.
abbrev Asks : Operation → Arrival → Type 0
Asks op arrival = (arrival.call.path ≡ path_of op) × (arrival.request.path ≡ path_of op)

module _ {L B : Type 0} (one : ℤ) (second : ℕ) (codec : Codec L) (name : String)
    (check : B → Option Json) (own_route : String → B → B × Ending) where
  abbrev pub serve_operation :
      Operation
      → Bool
      → Arrival
      → Metrics × Service (Parts codec B)
      → (Metrics × Service (Parts codec B)) × Ending
  serve_operation op = serve one second (λ req. handle codec name check own_route op)

  -- An operational request, for health, readiness, metrics, chaos, the status routes or the failure
  -- log, is handled at any time, whatever chaos is set and however many tokens its client has left:
  -- the service is afterwards as the handler leaves it, and the client gets the handler's answer.
  pub serve_operation-handle :
      (op : Operation) (enabled : Bool) (arrival : Arrival) (m : Metrics)
      (s : Service (Parts codec B))
      → IsOperational op
      → Asks op arrival
      → let ((m', s'), ending) = serve_operation op enabled arrival (m, s) in
        let (t, answer) = handle codec name check own_route op s in (s' ≡ t) × (ending ≡ answer)
  serve_operation-handle op enabled arrival m s operational (seen, asked) =
      let (control, ex) = path_of-exempt op operational in
      let route = λ (req : Request). handle codec name check own_route op in
      let passed =
        serve-passed one second route enabled arrival m s
          (rw seen (apply-exempt (path_of op) s.chaos control)) in
      let free : excluded arrival.request.path ≡ true = rw asked ex in
      let open_gate = limited-excluded one second route enabled arrival s free in
      (passed.0 ∙ ap (λ r. r.0) open_gate, passed.1 ∙ ap (λ r. r.1) open_gate)

  -- A POST /chaos/reset is answered with 200 at any time, and the request that follows it, to
  -- whatever path, gets no injected error: it is answered as the rate limiter and its route say.
  pub reset_restores :
      (op : Operation) (enabled : Bool) (first next : Arrival) (m : Metrics)
      (s : Service (Parts codec B))
      → Asks post_reset first
      → let ((m', s'), ending) = serve_operation post_reset enabled first (m, s) in
        let ((m'', s''), answer) = serve_operation op enabled next (m', s') in
        let (t, expected) =
          limited one second (λ req. handle codec name check own_route op) enabled next s' in
        (ending ≡ response 200) × (s'' ≡ t) × (answer ≡ expected)
  unfolding handle reset
  reset_restores op enabled first next m s asks =
      let (after, answer) = serve_operation-handle post_reset enabled first m s tt asks in
      let d = (reset s.chaos).0 in
      let quiet : apply_request_chaos next.call.path d ≡ (d, false) =
        quiet_request next.call.path d refl refl in
      let (m', s') = (serve_operation post_reset enabled first (m, s)).0 in
      let passed : apply_request_chaos next.call.path s'.chaos ≡ (s'.chaos, false) =
        rw (ap (λ t. t.chaos) after) quiet in
      let (same, same_answer) =
        serve-passed one second (λ req. handle codec name check own_route op) enabled next m' s'
          passed in
      (answer, same, same_answer)
