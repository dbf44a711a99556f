-- ===== src/Chaos/Controller.antt =====
-- `ChaosController` of shared/autosre_shared/chaos.py: the hook that each request passes, the
-- background workloads, and the handlers of the control plane.
use auto_sre.Prelude.{
  ℕ, ◌+◌, ◌-◌, Bool, true, false, ◌&&◌, ◌||◌, Option, none, some, List, [], ◌∷◌, ◌++◌, ltb, ◌==◌,
  if◌then◌else◌,
}
use auto_sre.Prelude.Int.{pos}
use auto_sre.Prelude.Text.{String, is_one_of, starts_with_any}
use auto_sre.Storage.{Emitted, Fields, end, field, num, str}
use auto_sre.Storage.Source
use auto_sre.Chaos.State.{ChaosState, new_state, Snapshot, snapshot, rate_of, should_inject_error}
use auto_sre.Chaos.Config.{
  LatencyConfig, ErrorConfig, CpuConfig, MemoryConfig, bytes_of, memory_max_bytes,
}

-- The gauge `chaos_active`, by its label.
pub record Gauges : Type 0 where
  pub latency : ℕ
  pub errors : ℕ
  pub cpu : ℕ
  pub memory : ℕ

-- A background workload, from `create_task` to its end: not started yet, or under way.
pub data Task : Type 0 where
  cpu_created : ℕ → Task
  cpu_burning : ℕ → Task
  memory_created : ℕ → ℕ → Task
  memory_held : ℕ → ℕ → Task

-- The state with its tasks, the metrics, and the events reported so far. `controls` are the labels
-- of `chaos_events_total`, one pair for each count.
pub record Controller : Type 0 where
  pub service : String
  pub state : ChaosState
  pub tasks : List Task
  pub active : Gauges
  pub controls : List (String × String)
  pub error_injections : ℕ
  pub latencies : List ℕ
  pub events : List Emitted

-- `ChaosController.__init__`
unfoldable pub chaos_controller : String → Controller
chaos_controller service = record {
  service = service;
  state = new_state;
  tasks = [];
  active = record { latency = 0; errors = 0; cpu = 0; memory = 0 };
  controls = [];
  error_injections = 0;
  latencies = [];
  events = [];
}

abbrev control_paths : List String
control_paths = "/health" ∷ "/ready" ∷ "/metrics" ∷ "/docs" ∷ "/redoc" ∷ "/openapi.json" ∷ []

abbrev control_prefixes : List String
control_prefixes = "/chaos" ∷ "/breaker" ∷ "/rate-limit" ∷ "/failures" ∷ []

unfoldable pub is_control : String → Bool
is_control path = is_one_of path control_paths || starts_with_any path control_prefixes

-- The test before the sleep of `apply_request_chaos`.
abbrev pub is_delayed : Controller → Bool
is_delayed c = c.state.latency_enabled && ltb 0 c.state.latency_seconds

-- The part after the sleep: a request that slept has the latency observed that the state then has.
-- The second component is whether the answer is the injected 500.
abbrev pub resume : Bool → Controller → Controller × Bool
resume slept c =
    let (s', hit) = should_inject_error c.state in
    (
      record c {
        state = s';
        latencies = if slept then c.latencies ++ c.state.latency_seconds ∷ [] else c.latencies;
        error_injections = if hit then c.error_injections + 1 else c.error_injections;
      },
      hit,
    )

-- `apply_request_chaos`, where `others` is what else happens during the sleep, if there is one.
unfoldable pub apply_meanwhile : (Controller → Controller) → String → Controller → Controller × Bool
apply_meanwhile others path c =
    if is_control path
    then (c, false)
    else (if is_delayed c then resume true (others c) else resume false c)

-- The same where nothing else happens.
unfoldable pub apply_request_chaos : String → Controller → Controller × Bool
apply_request_chaos path c = if is_control path then (c, false) else resume (is_delayed c) c

-- The start of `_run_cpu`, and its `finally`.
unfoldable pub start_cpu : Controller → Controller
start_cpu c = record c {
  state = record c.state { cpu_running = true };
  active = record c.active { cpu = 1 };
}

unfoldable pub finish_cpu : Controller → Controller
finish_cpu c = record c {
  state = record c.state { cpu_running = false };
  active = record c.active { cpu = 0 };
}

-- `_memory_blocks.remove(block)`: the first equal block goes, if there is one.
unfoldable pub remove_block : ℕ → List ℕ → List ℕ
remove_block size [] = []
remove_block size (b ∷ blocks) = if b == size then blocks else b ∷ remove_block size blocks

-- `_run_memory` up to its sleep, and its `finally`; subtraction stops at 0, as `max(0, …)` does.
unfoldable pub start_memory : ℕ → Controller → Controller
start_memory size c = record c {
  state = record c.state {
    memory_blocks = c.state.memory_blocks ++ size ∷ [];
    memory_bytes = c.state.memory_bytes + size;
  };
  active = record c.active { memory = 1 };
}

unfoldable pub finish_memory : ℕ → Controller → Controller
finish_memory size c =
    let left = c.state.memory_bytes - size in
    record c {
      state = record c.state {
        memory_blocks = remove_block size c.state.memory_blocks;
        memory_bytes = left;
      };
      active = record c.active { memory = if left == 0 then 0 else c.active.memory };
    }

abbrev switch : Bool → ℕ
switch enable = if enable then 1 else 0

-- `"enable" if cfg.enable else "disable"`
abbrev action_of : Bool → String
action_of enable = if enable then "enable" else "disable"

-- `chaos_events_total.labels(type=kind, action=action).inc()`, and `record_event` for the service.
abbrev pub report : String → String → String → Fields → Controller → Controller
report kind action event details c = record c {
  controls = c.controls ++ (kind, action) ∷ [];
  events =
      c.events
      ++ (record {
        source = Source.chaos;
        event = event;
        details = field "service" (str c.service) details;
      })
        ∷ [];
}

-- POST /chaos/latency
unfoldable pub set_latency : LatencyConfig → Controller → Controller × Snapshot
set_latency cfg c =
    let delay = if cfg.enable then cfg.delay_seconds else 0 in
    let c' = record c {
      state = record c.state { latency_enabled = cfg.enable; latency_seconds = delay };
      active = record c.active { latency = switch cfg.enable };
    } in
    let event = if cfg.enable then "latency_enable" else "latency_disable" in
    let c'' =
      report "latency" (action_of cfg.enable) event (field "seconds" (num (pos delay)) end) c' in
    (c'', snapshot c''.state)

-- POST /chaos/errors
unfoldable pub set_errors : ErrorConfig → Controller → Controller × Snapshot
set_errors cfg c =
    let percent = if cfg.enable then cfg.rate_percent else 0 in
    let c' = record c {
      state = record c.state {
        error_enabled = cfg.enable;
        error_rate = if cfg.enable then rate_of cfg.rate_percent else 0;
        error_accumulator = 0;
      };
      active = record c.active { errors = switch cfg.enable };
    } in
    let event = if cfg.enable then "errors_enable" else "errors_disable" in
    let c'' =
      report "errors" (action_of cfg.enable) event (field "rate_percent" (num (pos percent)) end)
        c' in
    (c'', snapshot c''.state)

-- POST /chaos/cpu: the task is created; it starts later.
unfoldable pub trigger_cpu : CpuConfig → Controller → Controller × Snapshot
trigger_cpu cfg c =
    let details = field "duration_seconds" (num (pos cfg.duration_seconds)) end in
    let c' = report "cpu" "trigger" "cpu_trigger" details c in
    (record c' { tasks = c'.tasks ++ cpu_created cfg.duration_seconds ∷ [] }, snapshot c'.state)

-- POST /chaos/memory: `none` is the answer 400.
unfoldable pub trigger_memory : MemoryConfig → Controller → Controller × Option Snapshot
trigger_memory cfg c =
    let size = bytes_of cfg.size_mb in
    if ltb memory_max_bytes (c.state.memory_bytes + size)
    then (c, none)
    else (let details =
          field "size_mb" (num (pos cfg.size_mb))
            (field "hold_seconds" (num (pos cfg.hold_seconds)) end) in
        let c' = report "memory" "trigger" "memory_trigger" details c in
        (
          record c' { tasks = c'.tasks ++ memory_created size cfg.hold_seconds ∷ [] },
          some (snapshot c'.state),
        ))

-- POST /chaos/reset
unfoldable pub reset : Controller → Controller × Snapshot
reset c =
    let c' = record c {
      state = record c.state {
        latency_enabled = false;
        latency_seconds = 0;
        error_enabled = false;
        error_rate = 0;
        error_accumulator = 0;
        memory_blocks = [];
        memory_bytes = 0;
      };
      active = record c.active { latency = 0; errors = 0; memory = 0 };
    } in
    let c'' = report "reset" "reset" "reset" end c' in (c'', snapshot c''.state)
