-- ===== src/Orders/Tests/Recovery.antt =====
-- The API's breaker after an outage of the Auth service.
use auto_sre.Prelude.{◌≡◌, refl, true, none, some, [], arith}
use auto_sre.Prelude.Int.{ℤ, pos, ◌-ℤ◌}
use auto_sre.Storage.Json.{bool, obj, field, end}
use auto_sre.Breaker.{opened, BreakerRecord, new_record, in_memory_store, World}
use auto_sre.Breaker.Protect.{returned}
use auto_sre.Service.Endpoints.{truthy}
use auto_sre.Orders.Create.{Order, valid_order, created}
use auto_sre.Orders.Outage.{Attempt, submit_one}
use auto_sre.Orders.Recovery.{Succeeds, successes_reopen_api}

abbrev two_lamps : Order
two_lamps = record { item = "lamp"; quantity = 2 }

abbrev working_at : ℤ → Attempt BreakerRecord
working_at now = record {
  order = two_lamps;
  authorization = none;
  entered = now;
  left = now;
  call = λ token w. (w, returned (obj (field "valid" (bool true) end)));
}

abbrev open_since_ten : World BreakerRecord
open_since_ten = record {
  stored = record new_record { state = opened; failure_count = 5; opened_at = some (pos 10) };
  gauge = 1;
  open_total = 1;
  rejections_total = 0;
  events = [];
}

working-Succeeds : (now : ℤ) → Succeeds (working_at now)
unfolding valid_order truthy
working-Succeeds now = (refl, (field "valid" (bool true) end, refl, λ w. refl))

successes_reopen_api_example :
    let (w', reply) = submit_one in_memory_store 1 (working_at (pos 40)) open_since_ten in
    let (w'', reply') = submit_one in_memory_store 1 (working_at (pos 41)) w' in
    (reply ≡ created two_lamps) × (reply' ≡ created two_lamps) × (w''.stored ≡ new_record)
unfolding ◌-ℤ◌
successes_reopen_api_example =
    successes_reopen_api in_memory_store 1 (working_at (pos 40)) (working_at (pos 41)) (pos 10)
      open_since_ten (working-Succeeds (pos 40)) (working-Succeeds (pos 41)) refl refl (omega arith)
