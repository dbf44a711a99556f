-- ===== src/Chaos/State.antt =====
-- `ChaosState` of shared/autosre_shared/chaos.py. Durations are counted in microseconds. A rate is
-- counted in units of 1/100_000_000, so that a percentage in millionths of a percent is, divided by
-- 100, a whole number of them.
use auto_sre.Prelude.{
  ℕ, ◌+◌, ◌-◌, ◌*◌, ◌/◌, Bool, true, false, not, ◌&&◌, ◌||◌, List, [], ltb, leb, length,
  if◌then◌else◌,
}

abbrev pub second : ℕ
second = 1_000_000

abbrev pub percent_one : ℕ
percent_one = 1_000_000

abbrev pub rate_one : ℕ
rate_one = 100_000_000

-- `cfg.rate_percent / 100.0`
unfoldable pub rate_of : ℕ → ℕ
rate_of percent = percent * rate_one / percent_one / 100

-- A block of memory is a `bytearray` whose contents depend on its size only, so that two blocks are
-- equal if their sizes are.
pub record ChaosState : Type 0 where
  pub latency_enabled : Bool
  pub latency_seconds : ℕ
  pub error_enabled : Bool
  pub error_rate : ℕ
  pub error_accumulator : ℕ
  pub cpu_running : Bool
  pub memory_bytes : ℕ
  pub memory_blocks : List ℕ

abbrev pub new_state : ChaosState
new_state = record {
  latency_enabled = false;
  latency_seconds = 0;
  error_enabled = false;
  error_rate = 0;
  error_accumulator = 0;
  cpu_running = false;
  memory_bytes = 0;
  memory_blocks = [];
}

-- `is_active`
unfoldable pub is_active : ChaosState → Bool
is_active s = s.latency_enabled || s.error_enabled || s.cpu_running || ltb 0 s.memory_bytes

-- `should_inject_error`, where 1.0 is `one` units and `round` gives the float of an exact result.
abbrev pub inject_rounded : (ℕ → ℕ) → ℕ → ChaosState → ChaosState × Bool
inject_rounded round one s =
    if not (s.error_enabled && ltb 0 s.error_rate)
    then (s, false)
    else (let acc = round (s.error_accumulator + s.error_rate) in
        if leb one acc
        then (record s { error_accumulator = round (acc - one) }, true)
        else (record s { error_accumulator = acc }, false))

-- `should_inject_error` of a service, in which the sums are taken to be exact. A float accumulator may
-- inject an error one request earlier or later; how far it strays is in Chaos/Errors.antt.
unfoldable pub should_inject_error : ChaosState → ChaosState × Bool
should_inject_error s = inject_rounded (λ x. x) rate_one s

-- `snapshot`, before the figures are rounded.
pub record Snapshot : Type 0 where
  pub active : Bool
  pub latency_enabled : Bool
  pub latency_seconds : ℕ
  pub error_enabled : Bool
  pub error_rate : ℕ
  pub cpu_running : Bool
  pub memory_bytes : ℕ
  pub blocks : ℕ

unfoldable pub snapshot : ChaosState → Snapshot
unfolding is_active
snapshot s = record {
  active = is_active s;
  latency_enabled = s.latency_enabled;
  latency_seconds = s.latency_seconds;
  error_enabled = s.error_enabled;
  error_rate = s.error_rate;
  cpu_running = s.cpu_running;
  memory_bytes = s.memory_bytes;
  blocks = length s.memory_blocks;
}
