-- ===== src/Chaos/Steps.antt =====
-- The controller in time: requests, control calls and the background tasks move it one at a time,
-- in any order (one event loop runs them all). `reset` is kept apart from the other moves.
use auto_sre.Prelude.{ℕ, ◌+◌, ◌≡◌, Bool, some, List, [], ◌∷◌, ◌++◌}
use auto_sre.Prelude.Int.{ℤ}
use auto_sre.Prelude.Text.{String}
use auto_sre.Chaos.Config.{
  LatencyConfig, ErrorConfig, CpuConfig, MemoryConfig, parse_latency, parse_errors, parse_cpu,
  parse_memory,
}
use auto_sre.Chaos.Controller.{
  Task, cpu_created, cpu_burning, memory_created, memory_held, Controller, apply_request_chaos,
  resume, start_cpu, finish_cpu, start_memory, finish_memory, set_latency, set_errors, trigger_cpu,
  trigger_memory, reset,
}

pub data Move (c d : Controller) : Type 0 where
  requested : (path : String) → d ≡ (apply_request_chaos path c).0 → Move c d
  resumed : (slept : Bool) → d ≡ (resume slept c).0 → Move c d
  latency_set :
      (enable : Bool) (delay : ℤ) (cfg : LatencyConfig)
      → parse_latency enable delay ≡ some cfg
      → d ≡ (set_latency cfg c).0
      → Move c d
  errors_set :
      (enable : Bool) (rate : ℤ) (cfg : ErrorConfig)
      → parse_errors enable rate ≡ some cfg
      → d ≡ (set_errors cfg c).0
      → Move c d
  cpu_triggered :
      (duration : ℤ) (cfg : CpuConfig)
      → parse_cpu duration ≡ some cfg
      → d ≡ (trigger_cpu cfg c).0
      → Move c d
  memory_triggered :
      (size hold : ℤ) (cfg : MemoryConfig)
      → parse_memory size hold ≡ some cfg
      → d ≡ (trigger_memory cfg c).0
      → Move c d
  cpu_started :
      (before after : List Task) (duration : ℕ)
      → c.tasks ≡ before ++ cpu_created duration ∷ after
      → d ≡ record (start_cpu c) { tasks = before ++ cpu_burning duration ∷ after }
      → Move c d
  cpu_finished :
      (before after : List Task) (duration : ℕ)
      → c.tasks ≡ before ++ cpu_burning duration ∷ after
      → d ≡ record (finish_cpu c) { tasks = before ++ after }
      → Move c d
  memory_started :
      (before after : List Task) (size hold : ℕ)
      → c.tasks ≡ before ++ memory_created size hold ∷ after
      → d ≡ record (start_memory size c) { tasks = before ++ memory_held size hold ∷ after }
      → Move c d
  memory_finished :
      (before after : List Task) (size hold : ℕ)
      → c.tasks ≡ before ++ memory_held size hold ∷ after
      → d ≡ record (finish_memory size c) { tasks = before ++ after }
      → Move c d

-- What follows without a reset, and what follows at all.
pub data Moves (c : Controller) : Controller → Type 0 where
  here : Moves c c
  next : {d e : Controller} → Moves c d → Move d e → Moves c e

pub data Reach (c : Controller) : Controller → Type 0 where
  start : Reach c c
  moved : {d e : Controller} → Reach c d → Move d e → Reach c e
  was_reset : {d : Controller} → Reach c d → Reach c (reset d).0

-- The bytes that the tasks under way hold, and those that the tasks still to start will ask for.
abbrev pub held : List Task → ℕ
held [] = 0
held (memory_held size hold ∷ tasks) = size + held tasks
held (memory_created size hold ∷ tasks) = held tasks
held (cpu_created duration ∷ tasks) = held tasks
held (cpu_burning duration ∷ tasks) = held tasks

abbrev pub pending : List Task → ℕ
pending [] = 0
pending (memory_created size hold ∷ tasks) = size + pending tasks
pending (memory_held size hold ∷ tasks) = pending tasks
pending (cpu_created duration ∷ tasks) = pending tasks
pending (cpu_burning duration ∷ tasks) = pending tasks
