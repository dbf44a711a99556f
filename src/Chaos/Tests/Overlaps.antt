-- ===== src/Chaos/Tests/Overlaps.antt =====
-- Control calls and CPU workloads that overlap, and the log of a small session.
use auto_sre.Prelude.{◌+◌, ◌<◌, ◌≡◌, refl, true, false, some, [], ◌∷◌}
use auto_sre.Prelude.Int.{pos}
use auto_sre.Chaos.Config.{
  LatencyConfig, ErrorConfig, CpuConfig, parse_latency, parse_errors, parse_cpu,
}
use auto_sre.Chaos.Controller.{
  Controller, chaos_controller, cpu_burning, apply_meanwhile, is_control, start_cpu, set_latency,
  set_errors, trigger_cpu, reset,
}
use auto_sre.Chaos.Steps.{
  start, moved, was_reset, latency_set, errors_set, cpu_triggered, cpu_started,
}
use auto_sre.Chaos.Overlaps.{burning, slept, total, total-set_latency, Reach-IsBurning}
use auto_sre.Chaos.Audit.{IsAudited, replay, Reach-IsAudited}

abbrev slow : LatencyConfig
slow = record { enable = true; delay_seconds = 2_000_000 }

abbrev fast : LatencyConfig
fast = record { enable = false; delay_seconds = 1_000_000 }

slow_accepted : parse_latency true (pos 2_000_000) ≡ some slow
unfolding parse_latency
slow_accepted = refl

abbrev slowed : Controller
slowed = (set_latency slow (chaos_controller "api")).0

total-set_latency_example :
    let c' = (apply_meanwhile (λ d. (set_latency fast d).0) "/orders" slowed).0 in
    (total c'.latencies ≡ 0 + 0) × (slept "/orders" slowed ≡ 2_000_000)
unfolding set_latency chaos_controller is_control
total-set_latency_example = total-set_latency fast "/orders" slowed refl refl

abbrev burn : CpuConfig
burn = record { duration_seconds = 5_000_000 }

burn_accepted : parse_cpu (pos 5_000_000) ≡ some burn
unfolding parse_cpu
burn_accepted = refl

abbrev triggered : Controller
triggered = (trigger_cpu burn (chaos_controller "api")).0

abbrev one_burns : Controller
one_burns = record (start_cpu triggered) { tasks = cpu_burning 5_000_000 ∷ [] }

Reach-IsBurning_example : 0 < burning one_burns.tasks
unfolding start_cpu chaos_controller trigger_cpu
Reach-IsBurning_example =
    Reach-IsBurning "api"
      (moved (moved start (cpu_triggered (pos 5_000_000) burn burn_accepted refl))
        (cpu_started [] [] 5_000_000 refl refl))
      refl

abbrev third : ErrorConfig
third = record { enable = true; rate_percent = 33_000_000 }

third_accepted : parse_errors true (pos 33_000_000) ≡ some third
unfolding parse_errors
third_accepted = refl

Reach-IsAudited_example : IsAudited (set_errors third (reset slowed).0).0
Reach-IsAudited_example = Reach-IsAudited "api" (
    moved (was_reset (moved start (latency_set true (pos 2_000_000) slow slow_accepted refl)))
      (errors_set true (pos 33_000_000) third third_accepted refl))

session_logged : (replay (set_errors third (reset slowed).0).0.events).rate_percent ≡ 33_000_000
unfolding set_errors reset set_latency chaos_controller
session_logged = refl
