-- ===== src/Chaos/Memory.antt =====
-- The memory workload: what is accounted for, and the cap of 256 MB.
use auto_sre.Prelude.{ℕ, ◌+◌, ◌≤◌, ◌<◌, ◌≡◌, refl, ◌≢◌, none, List, [], ◌∷◌, ◌++◌, arith}
use auto_sre.Prelude.Text.{String}
use auto_sre.Chaos.Config.{MemoryConfig, bytes_of, memory_max_bytes}
use auto_sre.Chaos.Controller.{
  Task, cpu_created, cpu_burning, memory_created, memory_held, Controller, chaos_controller,
  apply_request_chaos, start_cpu, finish_cpu, start_memory, finish_memory, set_latency, set_errors,
  trigger_cpu, trigger_memory, reset, remove_block,
}
use auto_sre.Chaos.State.{should_inject_error}
use auto_sre.Chaos.Steps.{
  Move, requested, resumed, latency_set, errors_set, cpu_triggered, memory_triggered, cpu_started,
  cpu_finished, memory_started, memory_finished, Moves, here, next, held, pending,
}

held-append : (xs ys : List Task) → held (xs ++ ys) ≡ held xs + held ys
held-append [] ys = omega arith
held-append (memory_held size hold ∷ xs) ys = omega (arith, held-append xs ys)
held-append (memory_created size hold ∷ xs) ys = held-append xs ys
held-append (cpu_created duration ∷ xs) ys = held-append xs ys
held-append (cpu_burning duration ∷ xs) ys = held-append xs ys

pending-append : (xs ys : List Task) → pending (xs ++ ys) ≡ pending xs + pending ys
pending-append [] ys = omega arith
pending-append (memory_created size hold ∷ xs) ys = omega (arith, pending-append xs ys)
pending-append (memory_held size hold ∷ xs) ys = pending-append xs ys
pending-append (cpu_created duration ∷ xs) ys = pending-append xs ys
pending-append (cpu_burning duration ∷ xs) ys = pending-append xs ys

-- The accounted bytes are those that the tasks under way hold.
abbrev IsAccounted : Controller → Type 0
IsAccounted c = c.state.memory_bytes ≡ held c.tasks

Move-IsAccounted : (c d : Controller) → Move c d → IsAccounted c → IsAccounted d
unfolding apply_request_chaos should_inject_error set_latency set_errors trigger_cpu trigger_memory
    start_cpu finish_cpu start_memory finish_memory
Move-IsAccounted c d (requested path e) h = ground arith
Move-IsAccounted c d (resumed slept e) h = ground arith
Move-IsAccounted c d (latency_set enable delay cfg p e) h = ground arith
Move-IsAccounted c d (errors_set enable rate cfg p e) h = ground arith
Move-IsAccounted c d (cpu_triggered duration cfg p e) h =
    ground (arith, held-append c.tasks (cpu_created cfg.duration_seconds ∷ []))
Move-IsAccounted c d (memory_triggered size hold cfg p e) h =
    ground
      (arith, held-append c.tasks (memory_created (bytes_of cfg.size_mb) cfg.hold_seconds ∷ []))
Move-IsAccounted c d (cpu_started before after duration t e) h = ground (
  arith,
  held-append before (cpu_created duration ∷ after),
  held-append before (cpu_burning duration ∷ after),
)
Move-IsAccounted c d (cpu_finished before after duration t e) h =
    ground (arith, held-append before (cpu_burning duration ∷ after), held-append before after)
Move-IsAccounted c d (memory_started before after size hold t e) h = ground (
  arith,
  held-append before (memory_created size hold ∷ after),
  held-append before (memory_held size hold ∷ after),
)
Move-IsAccounted c d (memory_finished before after size hold t e) h =
    ground (arith, held-append before (memory_held size hold ∷ after), held-append before after)

-- While nobody resets, the bytes that the state accounts for are exactly those that the tasks under
-- way hold, through any requests, control calls, and starts and ends of tasks.
pub Moves-IsAccounted :
    (service : String) {c : Controller}
    → Moves (chaos_controller service) c
    → c.state.memory_bytes ≡ held c.tasks
unfolding chaos_controller
Moves-IsAccounted service here = refl
Moves-IsAccounted service (next {d} {e} moves move) =
    Move-IsAccounted d e move (Moves-IsAccounted service moves)

-- A move that triggers memory does so only when no triggered task waits for its start.
abbrev IsSerial : {c d : Controller} → Move c d → Type 0
IsSerial {c = c} (memory_triggered size hold cfg p e) = pending c.tasks ≡ 0
IsSerial (requested path e) = Unit {0}
IsSerial (resumed slept e) = Unit {0}
IsSerial (latency_set enable delay cfg p e) = Unit {0}
IsSerial (errors_set enable rate cfg p e) = Unit {0}
IsSerial (cpu_triggered duration cfg p e) = Unit {0}
IsSerial (cpu_started before after duration t e) = Unit {0}
IsSerial (cpu_finished before after duration t e) = Unit {0}
IsSerial (memory_started before after size hold t e) = Unit {0}
IsSerial (memory_finished before after size hold t e) = Unit {0}

abbrev AllSerial : {c d : Controller} → Moves c d → Type 0
AllSerial here = Unit {0}
AllSerial (next moves move) = AllSerial moves × IsSerial move

-- What is held and what is asked for stay below the cap.
abbrev IsCapped : Controller → Type 0
IsCapped c = c.state.memory_bytes + pending c.tasks ≤ memory_max_bytes

Move-IsCapped : {c d : Controller} (move : Move c d) → IsSerial move → IsCapped c → IsCapped d
unfolding apply_request_chaos should_inject_error set_latency set_errors trigger_cpu trigger_memory
    start_cpu finish_cpu start_memory finish_memory
Move-IsCapped (requested path e) s h = ground arith
Move-IsCapped (resumed slept e) s h = ground arith
Move-IsCapped (latency_set enable delay cfg p e) s h = ground arith
Move-IsCapped (errors_set enable rate cfg p e) s h = ground arith
Move-IsCapped {c} (cpu_triggered duration cfg p e) s h =
    ground (arith, pending-append c.tasks (cpu_created cfg.duration_seconds ∷ []))
Move-IsCapped {c} (memory_triggered size hold cfg p e) s h =
    ground
      (arith, pending-append c.tasks (memory_created (bytes_of cfg.size_mb) cfg.hold_seconds ∷ []))
Move-IsCapped (cpu_started before after duration t e) s h = ground (
  arith,
  pending-append before (cpu_created duration ∷ after),
  pending-append before (cpu_burning duration ∷ after),
)
Move-IsCapped (cpu_finished before after duration t e) s h =
    ground
      (arith, pending-append before (cpu_burning duration ∷ after), pending-append before after)
Move-IsCapped (memory_started before after size hold t e) s h = ground (
  arith,
  pending-append before (memory_created size hold ∷ after),
  pending-append before (memory_held size hold ∷ after),
)
Move-IsCapped (memory_finished before after size hold t e) s h =
    ground
      (arith, pending-append before (memory_held size hold ∷ after), pending-append before after)

Moves-IsCapped :
    (service : String) {c : Controller} (moves : Moves (chaos_controller service) c)
    → AllSerial moves
    → IsCapped c
unfolding chaos_controller
Moves-IsCapped service here s = omega arith
Moves-IsCapped service (next moves move) (s, m) =
    Move-IsCapped move m (Moves-IsCapped service moves s)

-- While nobody resets and memory is triggered only when no earlier trigger waits for the start of
-- its task, the tasks never hold more than the cap of 256 MB.
pub serial_within_cap :
    (service : String) {c : Controller} (moves : Moves (chaos_controller service) c)
    → AllSerial moves
    → held c.tasks ≤ memory_max_bytes
serial_within_cap service moves s =
    omega (arith, Moves-IsCapped service moves s, Moves-IsAccounted service moves)

-- Two triggers before the first task starts are both accepted, since the check reads the bytes of
-- the tasks that have started: with sizes that pass one by one and exceed the cap together, from a
-- state that holds nothing, both tasks start and hold more than the cap.
pub triggers_exceed_cap :
    (first second : MemoryConfig) (c : Controller)
    → c.state.memory_bytes ≡ 0
    → bytes_of first.size_mb ≤ memory_max_bytes
    → bytes_of second.size_mb ≤ memory_max_bytes
    → memory_max_bytes < bytes_of first.size_mb + bytes_of second.size_mb
    → let (c', first_reply) = trigger_memory first c in
      let (c'', second_reply) = trigger_memory second c' in
      let d = start_memory (bytes_of second.size_mb) (start_memory (bytes_of first.size_mb) c'') in
      (first_reply ≢ none) × (second_reply ≢ none) × (memory_max_bytes < d.state.memory_bytes)
unfolding trigger_memory start_memory
triggers_exceed_cap first second c z h k over = ground arith

-- A reset forgets the bytes and the block of a task that goes on holding them. When that task ends,
-- it takes its size and an equal block off whatever was allocated since: with a block of the same
-- size held by a later task, nothing is accounted for any more and the gauge shows no memory chaos.
pub stale_task_unaccounts :
    (size : ℕ) (c : Controller)
    → let later = start_memory size (reset (start_memory size c)).0 in
      let d = finish_memory size later in
      (later.state.memory_bytes ≡ size)
      × (d.state.memory_bytes ≡ 0)
      × (d.state.memory_blocks ≡ [])
      × (d.active.memory ≡ 0)
unfolding start_memory finish_memory reset remove_block
stale_task_unaccounts size c = ground arith
