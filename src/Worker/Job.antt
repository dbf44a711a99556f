-- ===== src/Worker/Job.antt =====
-- `_process_job` and `_job_loop` of worker/main.py. A job runs against the shared chaos state; it
-- may be cancelled at one of its two sleeps.
use auto_sre.Prelude.{ℕ, zero, suc, ◌+◌, ◌&&◌, List, [], ◌∷◌, ◌++◌, ltb, if◌then◌else◌}
use auto_sre.Storage.{Emitted, end, field, str}
use auto_sre.Storage.Source
use auto_sre.Chaos.State.{ChaosState, should_inject_error}

-- Where a `CancelledError` meets the job, if anywhere.
pub data Cancel : Type 0 where
  never : Cancel
  in_latency : Cancel
  in_work : Cancel

pub data Status : Type 0 where
  success : Status
  failed : Status

-- How the coroutine ends: it returns its status, or the `CancelledError` leaves it.
pub data Ended : Type 0 where
  returned : Status → Ended
  cancelled : Ended

-- The chaos state and the worker's own metrics: `worker_jobs_processed_total` by status, the
-- observed durations (their number), the latencies slept, and the events reported.
pub record Worker : Type 0 where
  pub state : ChaosState
  pub succeeded : ℕ
  pub failures : ℕ
  pub durations : ℕ
  pub slept : List ℕ
  pub events : List Emitted

abbrev job_failed : Emitted
job_failed = record {
  source = Source.worker;
  event = "job_failed";
  details = field "service" (str "worker") end;
}

-- The `finally`: the duration and the status are counted.
unfoldable pub finish : Status → Worker → Worker
finish success w = record w { durations = w.durations + 1; succeeded = w.succeeded + 1 }
finish failed w = record w { durations = w.durations + 1; failures = w.failures + 1 }

-- From the error decision on. The `except Exception` catches the injected failure; a
-- `CancelledError` is no `Exception`, so the status is then still "success" in the `finally`.
work : Cancel → Worker → Worker × Ended
work at w =
    let (s, hit) = should_inject_error w.state in
    let decided = record w { state = s } in
    if hit
    then (finish failed (record decided { events = w.events ++ job_failed ∷ [] }), returned failed)
    else elim at [
      | in_work ↦ (finish success decided, cancelled)
      | never ↦ (finish success decided, returned success)
      | in_latency ↦ (finish success decided, returned success)
    ]

delayed : Cancel → Worker → Worker × Ended
unfolding work
delayed in_latency w = (finish success w, cancelled)
delayed never w = work never (record w { slept = w.slept ++ w.state.latency_seconds ∷ [] })
delayed in_work w = work in_work (record w { slept = w.slept ++ w.state.latency_seconds ∷ [] })

-- `_process_job`
unfoldable pub process_job : Cancel → Worker → Worker × Ended
unfolding delayed
process_job at w =
    if w.state.latency_enabled && ltb 0 w.state.latency_seconds then delayed at w else work at w

-- Rounds of `_job_loop` that are not cancelled.
unfoldable pub run_jobs : ℕ → Worker → Worker
run_jobs zero w = w
run_jobs (suc n) w = run_jobs n (process_job never w).0
