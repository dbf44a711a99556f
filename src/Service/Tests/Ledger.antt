-- ===== src/Service/Tests/Ledger.antt =====
-- Orders to a service with one token left, into which errors are injected from the second request
-- on, and chaos reset after two of them.
use auto_sre.Prelude.{ℕ, ◌+◌, ◌≡◌, refl, true, none, List, [], ◌∷◌, length}
use auto_sre.Prelude.Int.{pos}
use auto_sre.Chaos.Controller.{chaos_controller}
use auto_sre.Service.Pipeline.{Service, Arrival}
use auto_sre.Service.Tally.{with_status, of_type}
use auto_sre.Service.Operations.{
  Operation, Parts, get_metrics, post_errors, post_reset, business, path_of,
}
use auto_sre.Service.Runs.{serve_all, serve_all-Balanced}
use auto_sre.Service.Tests.Gateway.{plain, no_check, count_orders, to_path, no_metrics}

abbrev strained : Service (Parts plain ℕ)
strained = record {
  chaos = chaos_controller "api";
  limiter = record {
    rps = pos 1;
    burst = pos 1;
    buckets = [];
    requests_total = 0;
    rejections_total = 0;
    events = [];
  };
  routes = record { log = none; own = 0 };
}

abbrev visit : Operation → Operation × Arrival
visit op = (op, to_path (path_of op))

abbrev visits : List (Operation × Arrival)
visits =
    visit (business "/orders")
    ∷ visit (post_errors (record { enable = true; rate_percent = 100_000_000 }))
    ∷ visit (business "/orders")
    ∷ visit get_metrics
    ∷ visit post_reset
    ∷ visit (business "/orders")
    ∷ []

serve_all-Balanced_example :
    let (m', s') =
      serve_all (pos 1) 1 plain "api" no_check count_orders true visits (no_metrics, strained) in
    (s'.limiter.rejections_total + 0 + 0
      ≡ 0 + with_status 429 m'.requests + of_type "OverflowError" m'.exceptions)
    × (s'.chaos.error_injections + 0 + length m'.exceptions ≡ 0 + with_status 500 m'.requests + 0)
unfolding chaos_controller path_of
serve_all-Balanced_example =
    serve_all-Balanced (pos 1) 1 plain "api" no_check count_orders (λ path n. (refl, refl)) true
      visits no_metrics strained (refl, (refl, (refl, (refl, (refl, (refl, tt))))))
