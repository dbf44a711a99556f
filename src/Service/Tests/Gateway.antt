-- ===== src/Service/Tests/Gateway.antt =====
-- Operational requests to a service in which chaos fails every order and whose client has no token
-- left.
use auto_sre.Prelude.{ℕ, suc, ◌≡◌, refl, true, false, Option, none, some, [], ◌∷◌}
use auto_sre.Prelude.Int.{pos}
use auto_sre.Prelude.Text.{String}
use auto_sre.Storage.Json.{Json, Fields, obj}
use auto_sre.Storage.FileStore.{Codec}
use auto_sre.Chaos.State.{new_state}
use auto_sre.Chaos.Controller.{chaos_controller}
use auto_sre.Observability.Red.{Metrics, Ending, response}
use auto_sre.Service.Pipeline.{Service, Arrival, limited}
use auto_sre.Service.Operations.{Parts, get_health, post_reset, business, path_of, handle}
use auto_sre.Service.Gateway.{serve_operation, serve_operation-handle, reset_restores}

abbrev pub plain : Codec Fields
plain = record {
  is_blank = λ d. false;
  dumps = λ d. d;
  loads = λ d. some (obj d);
  is_blank-dumps = λ d. refl;
  loads-dumps = λ d. refl;
}

abbrev pub no_check : ℕ → Option Json
no_check n = none

abbrev pub count_orders : String → ℕ → ℕ × Ending
count_orders path n = (suc n, response 200)

abbrev besieged : Service (Parts plain ℕ)
besieged = record {
  chaos = record (chaos_controller "api") {
    state = record new_state { error_enabled = true; error_rate = 100_000_000 };
  };
  limiter = record {
    rps = pos 1;
    burst = pos 1;
    buckets = ("10.0.0.1", (pos 0, pos 100)) ∷ [];
    requests_total = 1;
    rejections_total = 0;
    events = [];
  };
  routes = record { log = none; own = 0 };
}

abbrev pub to_path : String → Arrival
to_path path = record {
  call = record { method = "POST"; path = path; route = some path };
  request = record { path = path; forwarded_for = none; client_host = some "10.0.0.1" };
  now = pos 100;
}

abbrev pub no_metrics : Metrics
no_metrics = record { requests = []; durations = []; in_progress = λ k. pos 0; exceptions = [] }

serve_operation-handle_example :
    let ((m', s'), ending) =
      serve_operation
        (pos 1)
        1
        plain
        "api"
        no_check
        count_orders
        get_health
        true
        (to_path "/health")
        (no_metrics, besieged) in
    (s' ≡ besieged) × (ending ≡ response 200)
unfolding handle path_of
serve_operation-handle_example =
    serve_operation-handle (pos 1) 1 plain "api" no_check count_orders get_health true
      (to_path "/health") no_metrics besieged tt (refl, refl)

reset_restores_example :
    let serve = serve_operation (pos 1) 1 plain "api" no_check count_orders in
    let ((m', s'), ending) =
      serve post_reset true (to_path "/chaos/reset") (no_metrics, besieged) in
    let ((m'', s''), answer) = serve (business "/orders") true (to_path "/orders") (m', s') in
    let (t, expected) =
      limited
        (pos 1)
        1
        (λ req. handle plain "api" no_check count_orders (business "/orders"))
        true
        (to_path "/orders")
        s' in
    (ending ≡ response 200) × (s'' ≡ t) × (answer ≡ expected)
unfolding path_of
reset_restores_example =
    reset_restores (pos 1) 1 plain "api" no_check count_orders (business "/orders") true
      (to_path "/chaos/reset") (to_path "/orders") no_metrics besieged (refl, refl)
