-- ===== src/Service/Tests.antt =====
-- A service on small requests, and the witnesses.
mod Gateway
mod Ledger
use auto_sre.Prelude.{
  ℕ, ◌≡◌, refl, sym, ◌∙◌, ◌⊎◌, true, Option, none, some, [], ◌∷◌, suc, arith, if◌then◌else◌,
}
use auto_sre.Prelude.Int.{ℤ, pos, ◌+ℤ◌, ◌-ℤ◌, ◌*ℤ◌}
use auto_sre.Prelude.Text.{String, str_eq}
use auto_sre.Chaos.State.{new_state}
use auto_sre.Chaos.Controller.{Controller, chaos_controller}
use auto_sre.RateLimit.Limiter.{
  Limiter, Request, forwarded, too_many_requests, dispatch, excluded, client_key, check, refuse,
  ceil_seconds,
}
use auto_sre.RateLimit.Bucket.{consume, take_tokens, find}
use auto_sre.Observability.Red.{Metrics, Ending, response, raised, status_of, route_label}
use auto_sre.Observability.Accounts.{exceptions_of}
use auto_sre.Service.Env.{validate_env}
use auto_sre.Prelude.{Bool}
use auto_sre.Prelude.Text.{is_one_of}
use auto_sre.Service.Env.{Caster, int, float, not_valid, required_problems, numeric_problems}
use auto_sre.Service.Startup.{
  start, api, worker, running, bad_setting, settings, import_settings, limiter_texts, after_import,
  default_port,
}
use auto_sre.Service.Started.{start-checked}
use auto_sre.Service.Pipeline.{Service, Arrival, serve, serve_accounts, refused_before_routes}

abbrev no_metrics : Metrics
no_metrics = record { requests = []; durations = []; in_progress = λ k. pos 0; exceptions = [] }

-- A limiter of one token, which its only client has spent.
abbrev spent : Limiter
spent = record {
  rps = pos 1;
  burst = pos 1;
  buckets = ("10.0.0.1", (pos 0, pos 100)) ∷ [];
  requests_total = 1;
  rejections_total = 0;
  events = [];
}

abbrev order_arrival : Arrival
order_arrival = record {
  call = record { method = "POST"; path = "/orders"; route = some "/orders" };
  request = record { path = "/orders"; forwarded_for = none; client_host = some "10.0.0.1" };
  now = pos 100;
}

abbrev failing_chaos : Controller
failing_chaos = record (chaos_controller "api") {
  state = record new_state { error_enabled = true; error_rate = 100000000 };
}

abbrev count_route : Request → Service ℕ → Service ℕ × Ending
count_route req s = (record s { routes = suc s.routes }, response 200)

abbrev busy : Service ℕ
busy = record { chaos = chaos_controller "api"; limiter = spent; routes = 0 }

serve_accounts_example :
    let ((m', s'), ending) = serve (pos 1) 1 count_route true order_arrival (no_metrics, busy) in
    (m'.requests ≡ ("POST", "/orders", status_of ending) ∷ [])
    × (m'.exceptions ≡ exceptions_of order_arrival.call ending)
    × ((k : String) → m'.in_progress k ≡ pos 0)
unfolding route_label
serve_accounts_example =
    serve_accounts (pos 1) 1 count_route true order_arrival no_metrics busy refl

too_many-forwarded : {n : ℤ} → ¬ (too_many_requests n ≡ forwarded)
too_many-forwarded h = grind arith

spent_refuses :
    (dispatch (pos 1) 1 order_arrival.now order_arrival.request spent).1 ≡ too_many_requests (pos 1)
unfolding dispatch excluded client_key check consume take_tokens refuse ceil_seconds ◌+ℤ◌ ◌-ℤ◌ ◌*ℤ◌
    find
spent_refuses = refl

-- `float` and `int` on the texts that occur here, and an environment with an empty rate.
abbrev casts_digits : Caster → String → Bool
casts_digits float raw = is_one_of raw ("0.08" ∷ "5" ∷ "0.2" ∷ "10" ∷ "20" ∷ [])
casts_digits int raw = is_one_of raw ("8000" ∷ "8001" ∷ "8002" ∷ [])

abbrev empty_rate : String → Option String
empty_rate name = if str_eq name "RATE_LIMIT_RPS" then some "" else none

start-checked_example :
    (start empty_rate casts_digits api ≡ running) × (limiter_texts empty_rate casts_digits ≡ none)
unfolding settings validate_env required_problems numeric_problems
start-checked_example =
    start-checked empty_rate casts_digits api
      (refl, refl, refl, refl, refl, refl, refl, refl, refl, refl) refl

abbrev bad_interval : String → Option String
bad_interval name = if str_eq name "WORKER_INTERVAL" then some "abc" else none

-- A malformed interval stops the worker before the environment is checked.
malformed_interval :
    (start bad_interval casts_digits worker ≡ bad_setting "WORKER_INTERVAL")
    × (validate_env bad_interval casts_digits [] ≡ not_valid "WORKER_INTERVAL" "abc" float ∷ [])
unfolding start settings import_settings validate_env required_problems numeric_problems
malformed_interval = (refl, refl)
