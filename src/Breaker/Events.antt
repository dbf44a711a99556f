-- ===== src/Breaker/Events.antt =====
-- The reported events tell the breaker's history: replayed, they give its state.
use auto_sre.Prelude.{ℕ, suc, ◌+◌, ◌≡◌, refl, List, [], ◌∷◌, ◌++◌, arith, if◌then◌else◌}
use auto_sre.Prelude.Text.{str_eq}
use auto_sre.Storage.{Emitted}
use auto_sre.Breaker.Defs.{
  BreakerState, closed, opened, half_open, BreakerStore, Config, World, new_record, circuit_breaker,
}
use auto_sre.Breaker.Methods.{state, allow, reject, record_success, record_failure}
use auto_sre.Breaker.Invariant.{Op, allow_at, rejected, succeeded, failed_at, apply, run}

-- The state that a reader of the log takes from one event, and from a log read in order.
abbrev pub event_state : Emitted → BreakerState → BreakerState
event_state e s =
    if str_eq e.event "opened"
    then opened
    else (if str_eq e.event "half_open"
        then half_open
        else (if str_eq e.event "closed" then closed else s))

abbrev pub replay : BreakerState → List Emitted → BreakerState
replay s [] = s
replay s (e ∷ es) = replay (event_state e s) es

abbrev openings : List Emitted → ℕ
openings [] = 0
openings (e ∷ es) = let rest = openings es in if str_eq e.event "opened" then suc rest else rest

replay-append :
    (s : BreakerState) (es : List Emitted) (e : Emitted)
    → replay s (es ++ e ∷ []) ≡ event_state e (replay s es)
replay-append s [] e = refl
replay-append s (x ∷ es) e = replay-append (event_state x s) es e

openings-append :
    (es : List Emitted) (e : Emitted) → openings (es ++ e ∷ []) ≡ openings es + openings (e ∷ [])
openings-append [] e = ground arith
openings-append (x ∷ es) e = ground (arith, openings-append es e)

module _ {S : Type 0} (st : BreakerStore S) (cfg : Config) where
  -- The log, read from CLOSED, ends in the state of the record, and holds one opening for each
  -- count of `circuit_breaker_open_total`.
  pub record IsLogged (w : World S) : Type 0 where
    pub replayed : replay closed w.events ≡ state st cfg w
    pub counted : openings w.events ≡ w.open_total

  apply-IsLogged : (op : Op) (w : World S) → IsLogged w → IsLogged (apply st cfg op w)
  unfolding apply allow reject record_success record_failure
  apply-IsLogged (allow_at now) w h = grind (arith, st.load-save, replay-append, openings-append)
  apply-IsLogged rejected w h = grind (arith, st.load-save)
  apply-IsLogged succeeded w h = grind (arith, st.load-save, replay-append, openings-append)
  apply-IsLogged (failed_at now) w h = grind (arith, st.load-save, replay-append, openings-append)

  run_keeps-IsLogged : (ops : List Op) (w : World S) → IsLogged w → IsLogged (run st cfg ops w)
  unfolding run
  run_keeps-IsLogged [] w h = h
  run_keeps-IsLogged (op ∷ ops) w h =
      run_keeps-IsLogged ops (apply st cfg op w) (apply-IsLogged op w h)

  -- After any sequence of method calls on a breaker built over the initial record, the events
  -- that it reported, replayed in order from CLOSED, give the state of its record, and the counter
  -- of openings is the number of `opened` events.
  pub run-IsLogged :
      (s : S) (ops : List Op)
      → st.load s ≡ new_record
      → IsLogged (run st cfg ops (circuit_breaker st s))
  unfolding circuit_breaker
  run-IsLogged s ops e = run_keeps-IsLogged ops (circuit_breaker st s) (grind arith)
