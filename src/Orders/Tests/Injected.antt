-- ===== src/Orders/Tests/Injected.antt =====
-- Orders against an Auth service that answers with injected errors only.
use auto_sre.Prelude.{ℕ, true, suc, ◌≡◌, refl, none, some, List, [], ◌∷◌, ◌++◌, map, leb, arith}
use auto_sre.Prelude.Int.{ℤ, pos, ◌-ℤ◌}
use auto_sre.Storage.Json.{bool, obj, field, str, end}
use auto_sre.Chaos.State.{new_state, rate_one}
use auto_sre.Chaos.Controller.{chaos_controller}
use auto_sre.RateLimit.Limiter.{Limiter, Request}
use auto_sre.Observability.Asgi.{default_vars}
use auto_sre.Observability.Red.{Ending, response}
use auto_sre.Breaker.{opened, BreakerRecord, new_record, in_memory_store, World}
use auto_sre.Breaker.Protect.{returned}
use auto_sre.Service.Pipeline.{Service}
use auto_sre.Orders.Create.{valid_order, unavailable}
use auto_sre.Orders.Client.{http_client}
use auto_sre.Orders.Outage.{Attempt, submit_one, submit_all}
use auto_sre.Orders.Injected.{Doomed, Remote, Placed, placed, injected_errors_shut_api}

abbrev quiet_breaker : World BreakerRecord
quiet_breaker = record {
  stored = new_record;
  gauge = 0;
  open_total = 0;
  rejections_total = 0;
  events = [];
}

abbrev open_limiter : Limiter
open_limiter = record {
  rps = pos 1;
  burst = pos 20;
  buckets = [];
  requests_total = 0;
  rejections_total = 0;
  events = [];
}

abbrev count_call : Request → Service ℕ → Service ℕ × Ending
count_call req s = (record s { routes = suc s.routes }, response 200)

-- The Auth service with errors injected into every request.
abbrev failing_auth : Remote (pos 1) 1 count_call (leb 400)
failing_auth = record {
  metrics = record { requests = []; durations = []; in_progress = λ k. pos 0; exceptions = [] };
  service = record {
    chaos = record (chaos_controller "auth") {
      state = record new_state { error_enabled = true; error_rate = rate_one };
    };
    limiter = open_limiter;
    routes = 0;
  };
  arrival = record {
    call = record { method = "POST"; path = "/validate"; route = some "/validate" };
    request = record { path = "/validate"; forwarded_for = none; client_host = some "10.0.0.2" };
    now = pos 5;
  };
  body = some (obj (field "detail" (str "chaos: injected error") end));
}

abbrev placed_at : ℤ → ℤ → Placed (pos 1) 1 count_call (leb 400)
placed_at entered left = record {
  order = record { item = "widget"; quantity = 2 };
  authorization = none;
  entered = entered;
  left = left;
  remote = failing_auth;
}

abbrev four_orders : List (Placed (pos 1) 1 count_call (leb 400))
four_orders =
    placed_at (pos 1) (pos 2)
    ∷ placed_at (pos 3) (pos 4)
    ∷ placed_at (pos 5) (pos 6)
    ∷ placed_at (pos 7) (pos 8)
    ∷ []

order-Doomed : (entered left : ℤ) → Doomed (pos 1) 1 count_call (leb 400) (placed_at entered left)
unfolding valid_order
order-Doomed entered left = (refl, ((refl, refl), refl))

-- An order whose call the Auth service would not fail.
abbrev next_order : Attempt BreakerRecord
next_order = record {
  order = record { item = "lamp"; quantity = 1 };
  authorization = some "Bearer abc";
  entered = pos 39;
  left = pos 39;
  call = λ token w. (w, returned (obj (field "valid" (bool true) end)));
}

injected_errors_shut_api_example :
    let w' =
      submit_all in_memory_store 1
        (map
          (placed (pos 1) 1 count_call (leb 400) (http_client "http://auth:8001") default_vars)
          (four_orders ++ placed_at (pos 9) (pos 10) ∷ []))
        quiet_breaker in
    (w'.stored.state ≡ opened)
    × ((submit_one in_memory_store 1 next_order w').1 ≡ unavailable "auth")
unfolding ◌-ℤ◌ valid_order
injected_errors_shut_api_example =
    injected_errors_shut_api (pos 1) 1 count_call (leb 400) in_memory_store
      (http_client "http://auth:8001") default_vars four_orders (placed_at (pos 9) (pos 10))
      next_order quiet_breaker refl
      (
        order-Doomed (pos 1) (pos 2),
        (
          order-Doomed (pos 3) (pos 4),
          (order-Doomed (pos 5) (pos 6), (order-Doomed (pos 7) (pos 8), tt)),
        ),
      )
      (order-Doomed (pos 9) (pos 10)) refl refl refl refl (omega arith)
