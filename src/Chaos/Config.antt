-- ===== src/Chaos/Config.antt =====
-- The control payloads of shared/autosre_shared/chaos.py, as pydantic admits them by the bounds of
-- their fields: `none` is a 422. Sizes in MB are counted in millionths.
use auto_sre.Prelude.{ℕ, ◌*◌, ◌/◌, Bool, Option, none, some, ◌&&◌, if◌then◌else◌}
use auto_sre.Prelude.Int.{ℤ, pos, pos_part, ltb_ℤ, leb_ℤ}
use auto_sre.Chaos.State.{second, percent_one}

abbrev mb_one : ℕ
mb_one = 1_000_000

abbrev pub latency_max : ℕ
latency_max = 10 * second

abbrev cpu_max : ℕ
cpu_max = 30 * second

abbrev memory_max_mb : ℕ
memory_max_mb = 256 * mb_one

abbrev memory_hold_max : ℕ
memory_hold_max = 60 * second

-- `int(size_mb * 1024 * 1024)`
unfoldable pub bytes_of : ℕ → ℕ
bytes_of size_mb = size_mb * 1024 * 1024 / mb_one

-- `_MEMORY_MAX_BYTES`
abbrev pub memory_max_bytes : ℕ
memory_max_bytes = memory_max_mb * 1024 * 1024 / mb_one

-- `Field(…, ge=0.0, le=most)` and `Field(…, gt=0.0, le=most)`.
abbrev from_zero : ℕ → ℤ → Option ℕ
from_zero most x = if leb_ℤ (pos 0) x && leb_ℤ x (pos most) then some (pos_part x) else none

abbrev above_zero : ℕ → ℤ → Option ℕ
above_zero most x = if ltb_ℤ (pos 0) x && leb_ℤ x (pos most) then some (pos_part x) else none

pub record LatencyConfig : Type 0 where
  pub enable : Bool
  pub delay_seconds : ℕ

pub record ErrorConfig : Type 0 where
  pub enable : Bool
  pub rate_percent : ℕ

pub record CpuConfig : Type 0 where
  pub duration_seconds : ℕ

pub record MemoryConfig : Type 0 where
  pub size_mb : ℕ
  pub hold_seconds : ℕ

unfoldable pub parse_latency : Bool → ℤ → Option LatencyConfig
parse_latency enable delay = elim (from_zero latency_max delay) [
  | none ↦ none
  | some d ↦ some (record { enable = enable; delay_seconds = d })
]

unfoldable pub parse_errors : Bool → ℤ → Option ErrorConfig
parse_errors enable rate = elim (from_zero (100 * percent_one) rate) [
  | none ↦ none
  | some r ↦ some (record { enable = enable; rate_percent = r })
]

unfoldable pub parse_cpu : ℤ → Option CpuConfig
parse_cpu duration = elim (above_zero cpu_max duration) [
  | none ↦ none
  | some d ↦ some (record { duration_seconds = d })
]

unfoldable pub parse_memory : ℤ → ℤ → Option MemoryConfig
parse_memory size hold = elim (above_zero memory_max_mb size) [
  | none ↦ none
  | some mb ↦ elim (above_zero memory_hold_max hold) [
    | none ↦ none
    | some h ↦ some (record { size_mb = mb; hold_seconds = h })
  ]
]
