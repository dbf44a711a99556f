-- ===== src/Chaos/Overlaps.antt =====
-- What can come between the steps of a request or of a CPU workload: control calls during a
-- request's sleep, and a second workload.
use auto_sre.Prelude.{
  ℕ, suc, ◌+◌, ◌<◌, ◌≡◌, refl, true, false, List, [], ◌∷◌, ◌++◌, arith, if◌then◌else◌, Bool-cases,
  inl, inr,
}
use auto_sre.Prelude.Text.{String}
use auto_sre.Chaos.State.{should_inject_error}
use auto_sre.Chaos.Config.{LatencyConfig, bytes_of}
use auto_sre.Chaos.Controller.{
  Task, cpu_created, cpu_burning, memory_created, memory_held, Controller, chaos_controller,
  apply_request_chaos, apply_meanwhile, is_control, is_delayed, start_cpu, finish_cpu, start_memory,
  finish_memory, set_latency, set_errors, trigger_cpu, trigger_memory, reset,
}
use auto_sre.Chaos.Steps.{
  Move, requested, resumed, latency_set, errors_set, cpu_triggered, memory_triggered, cpu_started,
  cpu_finished, memory_started, memory_finished, Reach, start, moved, was_reset,
}

-- Where nothing else happens during a sleep, the two forms of the hook agree.
apply_meanwhile-apply :
    (path : String) (c : Controller) → apply_meanwhile (λ d. d) path c ≡ apply_request_chaos path c
unfolding apply_meanwhile apply_request_chaos
apply_meanwhile-apply path c = elim (Bool-cases (is_delayed c)) [
  | inl slept ↦ rw (apply_meanwhile, apply_request_chaos, slept) refl
  | inr at_once ↦ rw (apply_meanwhile, apply_request_chaos, at_once) refl
]

-- How long a request sleeps, and the sum of the histogram of injected latency.
abbrev pub slept : String → Controller → ℕ
slept path c = if is_control path then 0 else (if is_delayed c then c.state.latency_seconds else 0)

abbrev pub total : List ℕ → ℕ
total [] = 0
total (x ∷ xs) = x + total xs

total-append : (xs : List ℕ) (x : ℕ) → total (xs ++ x ∷ []) ≡ total xs + x
total-append [] x = omega arith
total-append (y ∷ xs) x = omega (arith, total-append xs x)

-- The sum of the histogram grows by what a request sleeps, if nothing that happens during its sleep
-- changes the delay or the histogram.
pub total-slept :
    (others : Controller → Controller) (path : String) (c : Controller)
    → (others c).state.latency_seconds ≡ c.state.latency_seconds
    → (others c).latencies ≡ c.latencies
    → total (apply_meanwhile others path c).0.latencies ≡ total c.latencies + slept path c
unfolding apply_meanwhile
total-slept others path c same_delay same_latencies =
    ground (arith, total-append c.latencies c.state.latency_seconds)

-- A POST /chaos/latency during the sleep of a request makes the sum grow by the new delay, by 0 if
-- it turns the mode off, where the request slept for the delay that was set when it came.
pub total-set_latency :
    (cfg : LatencyConfig) (path : String) (c : Controller)
    → is_control path ≡ false
    → is_delayed c ≡ true
    → let c' = (apply_meanwhile (λ d. (set_latency cfg d).0) path c).0 in
      (total c'.latencies ≡ total c.latencies + (if cfg.enable then cfg.delay_seconds else 0))
      × (slept path c ≡ c.state.latency_seconds)
unfolding apply_meanwhile set_latency
total-set_latency cfg path c plain delayed =
    let delay = if cfg.enable then cfg.delay_seconds else 0 in
    rw (apply_meanwhile, plain, delayed) (total-append c.latencies delay, refl)

-- The CPU workloads under way.
abbrev pub burning : List Task → ℕ
burning [] = 0
burning (cpu_burning duration ∷ tasks) = suc (burning tasks)
burning (cpu_created duration ∷ tasks) = burning tasks
burning (memory_created size hold ∷ tasks) = burning tasks
burning (memory_held size hold ∷ tasks) = burning tasks

burning-append : (xs ys : List Task) → burning (xs ++ ys) ≡ burning xs + burning ys
burning-append [] ys = omega arith
burning-append (cpu_burning duration ∷ xs) ys = omega (arith, burning-append xs ys)
burning-append (cpu_created duration ∷ xs) ys = burning-append xs ys
burning-append (memory_created size hold ∷ xs) ys = burning-append xs ys
burning-append (memory_held size hold ∷ xs) ys = burning-append xs ys

-- A CPU workload that is marked as running is under way.
abbrev IsBurning : Controller → Type 0
IsBurning c = c.state.cpu_running ≡ true → 0 < burning c.tasks

Move-IsBurning : (c d : Controller) → Move c d → IsBurning c → IsBurning d
unfolding apply_request_chaos should_inject_error set_latency set_errors trigger_cpu trigger_memory
    start_cpu finish_cpu start_memory finish_memory
Move-IsBurning c d (requested path e) h = ground arith
Move-IsBurning c d (resumed slept e) h = ground arith
Move-IsBurning c d (latency_set enable delay cfg p e) h = ground arith
Move-IsBurning c d (errors_set enable rate cfg p e) h = ground arith
Move-IsBurning c d (cpu_triggered duration cfg p e) h =
    ground (arith, burning-append c.tasks (cpu_created cfg.duration_seconds ∷ []))
Move-IsBurning c d (memory_triggered size hold cfg p e) h =
    ground
      (arith, burning-append c.tasks (memory_created (bytes_of cfg.size_mb) cfg.hold_seconds ∷ []))
Move-IsBurning c d (cpu_started before after duration t e) h = ground (
  arith,
  burning-append before (cpu_created duration ∷ after),
  burning-append before (cpu_burning duration ∷ after),
)
Move-IsBurning c d (cpu_finished before after duration t e) h = ground arith
Move-IsBurning c d (memory_started before after size hold t e) h = ground (
  arith,
  burning-append before (memory_created size hold ∷ after),
  burning-append before (memory_held size hold ∷ after),
)
Move-IsBurning c d (memory_finished before after size hold t e) h =
    ground
      (arith, burning-append before (memory_held size hold ∷ after), burning-append before after)

-- Through any requests, control calls, resets, and starts and ends of background tasks: while a CPU
-- workload is marked as running, one is under way.
pub Reach-IsBurning :
    (service : String) {c : Controller}
    → Reach (chaos_controller service) c
    → c.state.cpu_running ≡ true
    → 0 < burning c.tasks
unfolding chaos_controller reset
Reach-IsBurning service start = λ h. grind arith
Reach-IsBurning service (moved {d} {e} r move) = Move-IsBurning d e move (Reach-IsBurning service r)
Reach-IsBurning service (was_reset {d} r) = Reach-IsBurning service r

-- The converse fails: when one of two CPU workloads ends, the state and the gauge say that none
-- runs, while the other is still under way.
pub overlap_hides_cpu :
    (before after : List Task) (duration : ℕ) (c : Controller)
    → c.tasks ≡ before ++ cpu_burning duration ∷ after
    → 1 < burning c.tasks
    → let d = record (finish_cpu c) { tasks = before ++ after } in
      Move c d × (0 < burning d.tasks) × (d.state.cpu_running ≡ false) × (d.active.cpu ≡ 0)
unfolding finish_cpu
overlap_hides_cpu before after duration c t two = (
  cpu_finished before after duration t refl,
  ground (arith, burning-append before (cpu_burning duration ∷ after), burning-append before after),
  refl,
  refl,
)
