-- ===== src/Chaos/Audit.antt =====
-- The reported events of the chaos controller tell the settings that are in force: `replay` is a
-- reader of the log.
use auto_sre.Prelude.{
  ltb, ◌+◌, ℕ, ◌≡◌, Bool, true, false, Option, none, some, List, [], ◌∷◌, ◌++◌, arith,
  if◌then◌else◌, Bool-cases, inl, inr,
}
use mathlib.Core.List.{foldl, foldl-append}
use auto_sre.Prelude.Int.{pos, negsuc}
use auto_sre.Prelude.Text.{String, str_eq}
use auto_sre.Storage.Json.{Json, null, bool, num, str, arr, obj, get, Emitted}
use auto_sre.Chaos.State.{ChaosState, should_inject_error, rate_of}
use auto_sre.Chaos.Config.{CpuConfig, MemoryConfig, bytes_of, memory_max_bytes}
use auto_sre.Chaos.Controller.{
  Controller, chaos_controller, apply_request_chaos, start_cpu, finish_cpu, start_memory,
  finish_memory, set_latency, set_errors, trigger_cpu, trigger_memory, reset,
}
use auto_sre.Chaos.Steps.{
  Move, requested, resumed, latency_set, errors_set, cpu_triggered, memory_triggered, cpu_started,
  cpu_finished, memory_started, memory_finished, Reach, start, moved, was_reset,
}

-- The settings as the log gives them.
pub record Settings : Type 0 where
  pub latency_enabled : Bool
  pub seconds : ℕ
  pub error_enabled : Bool
  pub rate_percent : ℕ

abbrev all_off : Settings
all_off = record { latency_enabled = false; seconds = 0; error_enabled = false; rate_percent = 0 }

-- A number of the details of an event.
abbrev number : Option Json → ℕ
number (some (num (pos n))) = n
number (some (num (negsuc n))) = 0
number (some null) = 0
number (some (bool b)) = 0
number (some (str s)) = 0
number (some (arr xs)) = 0
number (some (obj d)) = 0
number none = 0

abbrev read_event : Settings → Emitted → Settings
read_event s e =
    let seconds = number (get "seconds" e.details) in
    let percent = number (get "rate_percent" e.details) in
    if str_eq e.event "latency_enable"
    then record s { latency_enabled = true; seconds = seconds }
    else if str_eq e.event "latency_disable"
    then record s { latency_enabled = false; seconds = seconds }
    else if str_eq e.event "errors_enable"
    then record s { error_enabled = true; rate_percent = percent }
    else if str_eq e.event "errors_disable"
    then record s { error_enabled = false; rate_percent = percent }
    else if str_eq e.event "reset"
    then all_off
    else s

abbrev pub replay : List Emitted → Settings
replay = foldl read_event all_off

replay-append : (es : List Emitted) (e : Emitted) → replay (es ++ e ∷ []) ≡ read_event (replay es) e
replay-append es e = foldl-append read_event all_off es (e ∷ [])

-- Settings that a state has.
pub record Agrees (s : Settings) (state : ChaosState) : Type 0 where
  pub latency_same : s.latency_enabled ≡ state.latency_enabled
  pub seconds_same : s.seconds ≡ state.latency_seconds
  pub errors_same : s.error_enabled ≡ state.error_enabled
  pub rate_same : rate_of s.rate_percent ≡ state.error_rate

abbrev pub IsAudited : Controller → Type 0
IsAudited c = Agrees (replay c.events) c.state

-- An event that is read as the state has changed.
append-Agrees :
    (es : List Emitted) (e : Emitted) (state : ChaosState)
    → Agrees (read_event (replay es) e) state
    → Agrees (replay (es ++ e ∷ [])) state
append-Agrees es e state h = rw (replay-append es e) h

set_latency-IsAudited :
    (enable : Bool) (delay : ℕ) (c : Controller)
    → IsAudited c
    → IsAudited (set_latency (record { enable = enable; delay_seconds = delay }) c).0
unfolding set_latency
set_latency-IsAudited true delay c h = append-Agrees c.events _ _ (ground arith)
set_latency-IsAudited false delay c h = append-Agrees c.events _ _ (ground arith)

set_errors-IsAudited :
    (enable : Bool) (percent : ℕ) (c : Controller)
    → IsAudited c
    → IsAudited (set_errors (record { enable = enable; rate_percent = percent }) c).0
unfolding set_errors rate_of
set_errors-IsAudited true percent c h = append-Agrees c.events _ _ (ground arith)
set_errors-IsAudited false percent c h = append-Agrees c.events _ _ (ground arith)

-- An event of another name.
cpu-IsAudited : (cfg : CpuConfig) (c : Controller) → IsAudited c → IsAudited (trigger_cpu cfg c).0
unfolding trigger_cpu
cpu-IsAudited cfg c h = append-Agrees c.events _ _ h

memory-IsAudited :
    (cfg : MemoryConfig) (c : Controller) → IsAudited c → IsAudited (trigger_memory cfg c).0
unfolding trigger_memory
memory-IsAudited cfg c h =
    elim (Bool-cases (ltb memory_max_bytes (c.state.memory_bytes + bytes_of cfg.size_mb))) [
      | inl full ↦ rw (trigger_memory, full) h
      | inr fits ↦ rw (trigger_memory, fits) (append-Agrees c.events _ _ h)
    ]

reset-IsAudited : (c : Controller) → IsAudited (reset c).0
unfolding reset rate_of
reset-IsAudited c = append-Agrees c.events _ _ (ground arith)

Move-IsAudited : (c d : Controller) → Move c d → IsAudited c → IsAudited d
unfolding apply_request_chaos should_inject_error start_cpu finish_cpu start_memory finish_memory
Move-IsAudited c d (requested path e) h = ground arith
Move-IsAudited c d (resumed slept e) h = ground arith
Move-IsAudited c d (latency_set enable delay cfg p e) h =
    rw e (set_latency-IsAudited cfg.enable cfg.delay_seconds c h)
Move-IsAudited c d (errors_set enable rate cfg p e) h =
    rw e (set_errors-IsAudited cfg.enable cfg.rate_percent c h)
Move-IsAudited c d (cpu_triggered duration cfg p e) h = rw e (cpu-IsAudited cfg c h)
Move-IsAudited c d (memory_triggered size hold cfg p e) h = rw e (memory-IsAudited cfg c h)
Move-IsAudited c d (cpu_started before after duration t e) h = ground arith
Move-IsAudited c d (cpu_finished before after duration t e) h = ground arith
Move-IsAudited c d (memory_started before after size hold t e) h = ground arith
Move-IsAudited c d (memory_finished before after size hold t e) h = ground arith

-- Through any requests, control calls with payloads that pass validation, resets, and starts and
-- ends of background tasks: the events that the controller reported, read in order by their names
-- and their numbers, give the settings that are in force, whether latency and errors are injected,
-- the latency, and the error rate by its percentage.
pub Reach-IsAudited :
    (service : String) {c : Controller} → Reach (chaos_controller service) c → IsAudited c
unfolding chaos_controller rate_of
Reach-IsAudited service start = ground arith
Reach-IsAudited service (moved {d} {e} r move) = Move-IsAudited d e move (Reach-IsAudited service r)
Reach-IsAudited service (was_reset {d} r) = reset-IsAudited d
