-- ===== src/Chaos/Control.antt =====
-- The control plane: what the gauges show, the settings that a request can meet, and what a reset
-- clears.
use auto_sre.Prelude.{
  ℕ, suc, ◌≤◌, ◌<◌, ◌≡◌, refl, Bool, true, false, ◌||◌, List, [], ◌∷◌, arith, if◌then◌else◌,
}
use auto_sre.Prelude.Text.{String}
use auto_sre.Chaos.State.{should_inject_error, is_active, rate_one, rate_of}
use auto_sre.Chaos.Config.{parse_latency, parse_errors, latency_max}
use auto_sre.Chaos.Controller.{
  Controller, chaos_controller, apply_request_chaos, start_cpu, finish_cpu, start_memory,
  finish_memory, set_latency, set_errors, trigger_cpu, trigger_memory, reset,
}
use auto_sre.Chaos.Steps.{
  Move, requested, resumed, latency_set, errors_set, cpu_triggered, memory_triggered, cpu_started,
  cpu_finished, memory_started, memory_finished, Reach, start, moved, was_reset,
}

-- The gauges of three modes show their state, a latency is kept only while it is enabled and within
-- its bound, and the error rate is at most 100 % with an accumulator below one.
pub record IsSound (c : Controller) : Type 0 where
  pub latency_shown : c.active.latency ≡ (if c.state.latency_enabled then 1 else 0)
  pub errors_shown : c.active.errors ≡ (if c.state.error_enabled then 1 else 0)
  pub cpu_shown : c.active.cpu ≡ (if c.state.cpu_running then 1 else 0)
  pub latency_off : c.state.latency_enabled ≡ false → c.state.latency_seconds ≡ 0
  pub latency_bounded : c.state.latency_seconds ≤ latency_max
  pub errors_off : c.state.error_enabled ≡ false → c.state.error_rate ≡ 0
  pub rate_bounded : c.state.error_rate ≤ rate_one
  pub accumulator_below : c.state.error_accumulator < rate_one
  pub memory_shown : 0 < c.state.memory_bytes → c.active.memory ≡ 1

Move-IsSound : (c d : Controller) → Move c d → IsSound c → IsSound d
unfolding apply_request_chaos should_inject_error set_latency set_errors trigger_cpu trigger_memory
    start_cpu finish_cpu start_memory finish_memory parse_latency parse_errors rate_of
Move-IsSound c d (requested path e) h = ground arith
Move-IsSound c d (resumed slept e) h = ground arith
Move-IsSound c d (latency_set enable delay cfg p e) h = ground arith
Move-IsSound c d (errors_set enable rate cfg p e) h = ground arith
Move-IsSound c d (cpu_triggered duration cfg p e) h = ground arith
Move-IsSound c d (memory_triggered size hold cfg p e) h = ground arith
Move-IsSound c d (cpu_started before after duration t e) h = ground arith
Move-IsSound c d (cpu_finished before after duration t e) h = ground arith
Move-IsSound c d (memory_started before after size hold t e) h = ground arith
Move-IsSound c d (memory_finished before after size hold t e) h = ground arith

reset-IsSound : (c : Controller) → IsSound c → IsSound (reset c).0
unfolding reset
reset-IsSound c h = ground arith

-- Through any requests, control calls with payloads that pass validation, resets, and starts and
-- ends of background tasks: the gauges of latency, errors and CPU are 1 exactly while their mode is
-- on, a mode that is off has no latency and no error rate left, the latency is at most 10 s, the
-- error rate at most 100 % with an accumulator below one, and while memory is accounted for its
-- gauge is 1.
pub Reach-IsSound :
    (service : String) {c : Controller} → Reach (chaos_controller service) c → IsSound c
unfolding chaos_controller
Reach-IsSound service start = ground arith
Reach-IsSound service (moved {d} {e} r move) = Move-IsSound d e move (Reach-IsSound service r)
Reach-IsSound service (was_reset {d} r) = reset-IsSound d (Reach-IsSound service r)

-- The requests for these paths, one after the other, with how many got an injected error.
pub run_requests : List String → Controller → Controller × ℕ
run_requests [] c = (c, 0)
run_requests (path ∷ paths) c =
    let (c', hit) = apply_request_chaos path c in
    let (c'', hits) = run_requests paths c' in (c'', if hit then suc hits else hits)

pub quiet_request :
    (path : String) (c : Controller)
    → c.state.latency_enabled ≡ false
    → c.state.error_enabled ≡ false
    → apply_request_chaos path c ≡ (c, false)
unfolding apply_request_chaos should_inject_error
quiet_request path c l e = ground arith

quiet_requests :
    (paths : List String) (c : Controller)
    → c.state.latency_enabled ≡ false
    → c.state.error_enabled ≡ false
    → run_requests paths c ≡ (c, 0)
unfolding run_requests
quiet_requests [] c l e = refl
quiet_requests (path ∷ paths) c l e = rw (quiet_request path c l e, quiet_requests paths c l e) refl

-- After a reset no request is slowed down or answered with an injected error, whatever was set
-- before, until a control call turns a mode on. A reset leaves the background tasks alone: the state
-- stays active exactly if a CPU workload is marked as running.
pub reset_quiets :
    (paths : List String) (c : Controller)
    → let d = (reset c).0 in
      (run_requests paths d ≡ (d, 0))
      × (is_active d.state ≡ c.state.cpu_running)
      × (d.tasks ≡ c.tasks)
unfolding reset is_active
reset_quiets paths c =
    (quiet_requests paths (reset c).0 refl refl, or_false c.state.cpu_running, refl)
  where
    or_false : (b : Bool) → (b || false) ≡ b
    or_false true = refl
    or_false false = refl
