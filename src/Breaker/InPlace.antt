-- ===== src/Breaker/InPlace.antt =====
-- The methods of `CircuitBreaker` as they run over `InMemoryStore`, whose `load` hands out the record
-- that it holds: each assignment changes that object at once, and `save` stores the object that is
-- there already (shared/autosre_shared/resilience/circuit_breaker.py).
use auto_sre.Prelude.{ℕ, ◌+◌, Bool, true, false, none, some, List, [], ◌∷◌, leb, if◌then◌else◌}
use auto_sre.Prelude.Int.{ℤ, ◌-ℤ◌, ltb_ℤ}
use auto_sre.Breaker.Defs.{
  BreakerState, state_value, closed, opened, half_open, is_opened, is_half_open, BreakerRecord,
  Config, World, or_zero, emit, count_open,
}
use auto_sre.Breaker.Methods.{half_open_event, closed_event, opened_event}
use auto_sre.Breaker.Invariant.{Op, allow_at, rejected, succeeded, failed_at}

-- `stored` is the object's fields.
abbrev pub Memory : Type 0
Memory = World BreakerRecord

-- Assignments to the object's fields, one by one.
abbrev set_failure_count : ℕ → Memory → Memory
set_failure_count n w = record w { stored = record w.stored { failure_count = n } }

abbrev set_success_count : ℕ → Memory → Memory
set_success_count n w = record w { stored = record w.stored { success_count = n } }

abbrev set_opened_at : ℤ → Memory → Memory
set_opened_at t w = record w { stored = record w.stored { opened_at = some t } }

abbrev forget_opened_at : Memory → Memory
forget_opened_at w = record w { stored = record w.stored { opened_at = none } }

-- `_set_state`
abbrev set_state : BreakerState → Memory → Memory
set_state s w = record w { stored = record w.stored { state = s }; gauge = state_value s }

module _ (cfg : Config) where
  unfoldable pub allow : ℤ → Memory → Memory × Bool
  allow now w =
      if is_opened w.stored.state
      then if ltb_ℤ (now -ℤ or_zero w.stored.opened_at) cfg.recovery_timeout
        then (w, false)
        else (emit (half_open_event cfg) (set_state half_open (set_success_count 0 w)), true)
      else (w, true)

  abbrev close : Memory → Memory
  close w =
      emit (closed_event cfg)
        (set_state closed (forget_opened_at (set_success_count 0 (set_failure_count 0 w))))

  unfoldable pub record_success : Memory → Memory
  record_success w =
      if is_half_open w.stored.state
      then (let w' = set_success_count (w.stored.success_count + 1) w in
          if leb cfg.success_threshold w'.stored.success_count then close w' else w')
      else set_failure_count 0 w

  abbrev trip : Memory → Memory
  trip w =
      let w' = count_open (set_state opened w) in emit (opened_event cfg w'.stored.failure_count) w'

  unfoldable pub record_failure : ℤ → Memory → Memory
  record_failure now w =
      if is_half_open w.stored.state
      then trip (set_success_count 0 (set_opened_at now w))
      else (let w' = set_failure_count (w.stored.failure_count + 1) w in
          if leb cfg.failure_threshold w'.stored.failure_count
          then trip (set_opened_at now w')
          else w')

  -- `_reject`
  unfoldable pub reject : Memory → Memory
  reject w = record w { rejections_total = w.rejections_total + 1 }

  unfoldable pub apply : Op → Memory → Memory
  apply (allow_at now) w = (allow now w).0
  apply rejected w = reject w
  apply succeeded w = record_success w
  apply (failed_at now) w = record_failure now w

  unfoldable pub run : List Op → Memory → Memory
  run [] w = w
  run (op ∷ ops) w = run ops (apply op w)
