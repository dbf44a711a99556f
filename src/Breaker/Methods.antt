-- ===== src/Breaker/Methods.antt =====
-- The methods of `CircuitBreaker` that change its state.
use auto_sre.Prelude.{ℕ, ◌+◌, Bool, true, false, none, some, leb, if◌then◌else◌}
use auto_sre.Prelude.Int.{ℤ, pos, ◌-ℤ◌, ltb_ℤ}
use auto_sre.Storage.{Emitted, end, field, num}
use auto_sre.Breaker.Defs.{
  BreakerState, closed, opened, half_open, is_opened, is_half_open, BreakerRecord, BreakerStore,
  Config, World, or_zero, report, emit, count_open, set_state,
}

-- The state of each event that a method reports after it releases the lock.
abbrev pub half_open_event : Config → Emitted
half_open_event cfg = report cfg "half_open" end

abbrev pub closed_event : Config → Emitted
closed_event cfg = report cfg "closed" end

abbrev pub opened_event : Config → ℕ → Emitted
opened_event cfg failures = report cfg "opened" (field "failure_count" (num (pos failures)) end)

module _ {S : Type 0} (st : BreakerStore S) (cfg : Config) where
  -- `CircuitBreaker.state`
  abbrev pub state : World S → BreakerState
  state w = (st.load w.stored).state

  abbrev save : BreakerRecord → World S → World S
  save rec w = record w { stored = st.save rec w.stored }

  -- `allow`: whether the caller may go on.
  unfoldable pub allow : ℤ → World S → World S × Bool
  allow now w =
      let rec = st.load w.stored in
      if is_opened rec.state
      then if ltb_ℤ (now -ℤ or_zero rec.opened_at) cfg.recovery_timeout
        then (w, false)
        else (let (rec', w') = set_state (record rec { success_count = 0 }) half_open w in
            (emit (half_open_event cfg) (save rec' w'), true))
      else (w, true)

  -- `_reject`: the counter goes up; the exception is the caller's result.
  unfoldable pub reject : World S → World S
  reject w = record w { rejections_total = w.rejections_total + 1 }

  -- The two ends of `record_success` when a trial call has succeeded.
  abbrev close : BreakerRecord → World S → World S
  close rec w =
      let reset = record rec { failure_count = 0; success_count = 0; opened_at = none } in
      let (rec', w') = set_state reset closed w in emit (closed_event cfg) (save rec' w')

  unfoldable pub record_success : World S → World S
  record_success w =
      let rec = st.load w.stored in
      if is_half_open rec.state
      then (let counted = record rec { success_count = rec.success_count + 1 } in
          if leb cfg.success_threshold counted.success_count
          then close counted w
          else save counted w)
      else save (record rec { failure_count = 0 }) w

  -- `_set_state(rec, OPEN)`, the counter, the save and the event, as both branches end.
  abbrev trip : BreakerRecord → World S → World S
  trip rec w =
      let (rec', w') = set_state rec opened w in
      emit (opened_event cfg rec'.failure_count) (save rec' (count_open w'))

  unfoldable pub record_failure : ℤ → World S → World S
  record_failure now w =
      let rec = st.load w.stored in
      if is_half_open rec.state
      then trip (record rec { opened_at = some now; success_count = 0 }) w
      else (let counted = record rec { failure_count = rec.failure_count + 1 } in
          if leb cfg.failure_threshold counted.failure_count
          then trip (record counted { opened_at = some now }) w
          else save counted w)

  -- `_exit(failed)`
  unfoldable pub exit : Bool → ℤ → World S → World S
  exit failed now w = if failed then record_failure now w else record_success w
