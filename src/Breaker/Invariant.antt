-- ===== src/Breaker/Invariant.antt =====
-- What holds of a breaker between two method calls, whatever the order in which calls of its
-- methods by requests in flight are interleaved.
use auto_sre.Prelude.{◌<◌, ◌≡◌, ◌≢◌, none, List, [], ◌∷◌, arith}
use auto_sre.Prelude.Int.{ℤ}
use auto_sre.Breaker.Defs.{
  closed, half_open, BreakerRecord, BreakerStore, Config, World, state_value, new_record,
  circuit_breaker,
}
use auto_sre.Breaker.Methods.{allow, reject, record_success, record_failure}

-- One method call, with the clock's reading where the method takes one.
pub data Op : Type 0 where
  allow_at : ℤ → Op
  rejected : Op
  succeeded : Op
  failed_at : ℤ → Op

module _ {S : Type 0} (st : BreakerStore S) (cfg : Config) where
  unfoldable pub apply : Op → World S → World S
  apply (allow_at now) w = (allow st cfg now w).0
  apply rejected w = reject st cfg w
  apply succeeded w = record_success st cfg w
  apply (failed_at now) w = record_failure st cfg now w

  unfoldable pub run : List Op → World S → World S
  run [] w = w
  run (op ∷ ops) w = run ops (apply op w)

-- The thresholds bound the counters, the trip time is there exactly outside CLOSED, and trial
-- successes are counted in HALF_OPEN only.
pub record IsConsistent (cfg : Config) (rec : BreakerRecord) : Type 0 where
  pub closed_below : rec.state ≡ closed → rec.failure_count < cfg.failure_threshold
  pub closed_untripped : rec.state ≡ closed → rec.opened_at ≡ none
  pub tripped : rec.state ≢ closed → rec.opened_at ≢ none
  pub trial_below : rec.state ≡ half_open → rec.success_count < cfg.success_threshold
  pub trial_only : rec.state ≢ half_open → rec.success_count ≡ 0

-- The record is consistent and the gauge shows its state.
pub record IsValid {S : Type 0} (st : BreakerStore S) (cfg : Config) (w : World S) : Type 0 where
  pub consistent : IsConsistent cfg (st.load w.stored)
  pub gauge_shown : w.gauge ≡ state_value (st.load w.stored).state

module _ {S : Type 0} (st : BreakerStore S) (cfg : Config) where
  apply-IsValid :
      (op : Op) (w : World S)
      → 0 < cfg.failure_threshold
      → 0 < cfg.success_threshold
      → IsValid st cfg w
      → IsValid st cfg (apply st cfg op w)
  unfolding apply allow reject record_success record_failure
  apply-IsValid (allow_at now) w hf hs v = grind (arith, st.load-save)
  apply-IsValid rejected w hf hs v = grind (arith, st.load-save)
  apply-IsValid succeeded w hf hs v = grind (arith, st.load-save)
  apply-IsValid (failed_at now) w hf hs v = grind (arith, st.load-save)

  run_keeps-IsValid :
      (ops : List Op) (w : World S)
      → 0 < cfg.failure_threshold
      → 0 < cfg.success_threshold
      → IsValid st cfg w
      → IsValid st cfg (run st cfg ops w)
  unfolding run
  run_keeps-IsValid [] w hf hs v = v
  run_keeps-IsValid (op ∷ ops) w hf hs v =
      run_keeps-IsValid ops (apply st cfg op w) hf hs (apply-IsValid op w hf hs v)

  circuit_breaker-IsValid :
      (s : S)
      → 0 < cfg.failure_threshold
      → st.load s ≡ new_record
      → IsValid st cfg (circuit_breaker st s)
  unfolding circuit_breaker
  circuit_breaker-IsValid s hf e = grind arith

  -- A breaker with positive thresholds, built on a store that holds the initial record, is
  -- consistent after any sequence of method calls: while CLOSED its failure count is below the
  -- failure threshold and no trip time is kept, outside CLOSED a trip time is kept, while HALF_OPEN
  -- its success count is below the success threshold and in any other state it is 0; and the gauge
  -- shows the state.
  pub run-IsValid :
      (s : S) (ops : List Op)
      → 0 < cfg.failure_threshold
      → 0 < cfg.success_threshold
      → st.load s ≡ new_record
      → IsValid st cfg (run st cfg ops (circuit_breaker st s))
  run-IsValid s ops hf hs e =
      run_keeps-IsValid ops (circuit_breaker st s) hf hs (circuit_breaker-IsValid s hf e)
