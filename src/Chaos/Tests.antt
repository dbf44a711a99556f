-- ===== src/Chaos/Tests.antt =====
-- Runs of a chaos controller, and the theorems about it at concrete inputs.
mod Overlaps
use auto_sre.Prelude.{
  ℕ, suc, ◌-◌, ◌⊎◌, ◌+◌, ◌*◌, ◌/◌, ◌≤◌, ◌<◌, ◌≡◌, refl, ◌≢◌, true, none, some, [], ◌∷◌, ◌++◌, arith,
  ltb, if◌then◌else◌,
}
use auto_sre.Prelude.Int.{pos}
use auto_sre.Chaos.State.{ChaosState, new_state, should_inject_error, is_active, rate_one}
use auto_sre.Chaos.Config.{
  ErrorConfig, MemoryConfig, bytes_of, memory_max_bytes, parse_errors, parse_memory,
}
use auto_sre.Chaos.Errors.{decide, errors_evenly_spread}
use auto_sre.Chaos.Controller.{
  Controller, chaos_controller, memory_created, memory_held, start_memory, finish_memory,
  set_errors, trigger_memory, reset,
}
use auto_sre.Chaos.Steps.{
  errors_set, memory_triggered, memory_started, Moves, here, next, start, moved, was_reset, held,
}
use auto_sre.Chaos.Workloads.{cpu_burn, cpu_burn_ends}
use auto_sre.Chaos.Memory.{
  Moves-IsAccounted, serial_within_cap, triggers_exceed_cap, stale_task_unaccounts,
}
use auto_sre.Chaos.Control.{IsSound, Reach-IsSound, run_requests, reset_quiets}

-- Errors at 30 %, with floats of which one in two is missing from 1.0 on, in units of 1/1000. The rate
-- is 299 of them.
abbrev failing : ChaosState
failing = record new_state { error_enabled = true; error_rate = 299 }

abbrev halved : ℕ → ℕ
halved x = if ltb x 1000 then x else x / 2 * 2

near : (x : ℕ) → x ≤ 1000 + 1000 → (halved x ≤ x + 1) × (x ≤ halved x + 1)
near x h = ground arith

up_to_two : (x : ℕ) → x ≤ 1000 + 1000 → halved x ≤ 1000 + 1000
up_to_two x h = ground arith

exact :
    (x : ℕ) → 1000 ≤ halved x → halved x ≤ 1000 + 1000 → halved (halved x - 1000) ≡ halved x - 1000
exact x low high = ground arith

two_of_ten : (decide halved 1000 10 failing).1 ≡ 2
unfolding decide
two_of_ten = refl

errors_evenly_spread_example :
    let hits = (decide halved 1000 10 failing).1 in
    (hits * 1000 ≤ 0 + 10 * 299 + 10 * 1) × (0 + 10 * 299 ≤ suc hits * 1000 + 10 * 1)
errors_evenly_spread_example =
    errors_evenly_spread halved 1000 1 near up_to_two exact 10 failing refl (omega arith)
      (omega arith)

-- 200 MB for 10 s.
abbrev large : MemoryConfig
large = record { size_mb = 200_000_000; hold_seconds = 10_000_000 }

abbrev fresh : Controller
fresh = chaos_controller "api"

abbrev triggered : Controller
triggered = (trigger_memory large fresh).0

abbrev started : Controller
started = record (start_memory 209_715_200 triggered) {
  tasks = memory_held 209_715_200 10_000_000 ∷ [];
}

large_accepted : parse_memory (pos 200_000_000) (pos 10_000_000) ≡ some large
unfolding parse_memory
large_accepted = refl

one_task : triggered.tasks ≡ [] ++ memory_created 209_715_200 10_000_000 ∷ []
unfolding trigger_memory chaos_controller bytes_of
one_task = refl

run_large : Moves fresh started
run_large =
    next (next here (memory_triggered (pos 200_000_000) (pos 10_000_000) large large_accepted refl))
      (memory_started [] [] 209_715_200 10_000_000 one_task refl)

Moves-IsAccounted_example : started.state.memory_bytes ≡ held started.tasks
Moves-IsAccounted_example = Moves-IsAccounted "api" run_large

abbrev half : ErrorConfig
half = record { enable = true; rate_percent = 50_000_000 }

half_accepted : parse_errors true (pos 50_000_000) ≡ some half
unfolding parse_errors
half_accepted = refl

-- A clock that gains one unit in every two readings, from 100 on.
abbrev slow_clock : ℕ → ℕ
slow_clock i = 100 + i / 2

cpu_burn_ends_example :
    (n : ℕ) × (cpu_burn slow_clock 103 (suc ((103 - slow_clock 0) * 2)) ≡ some n)
    × (103 ≤ slow_clock n)
    × ((n ≡ 0) ⊎ (slow_clock (n - 1) < 103))
cpu_burn_ends_example = cpu_burn_ends slow_clock 2 103 (λ j. omega arith)
