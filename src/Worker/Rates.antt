-- ===== src/Worker/Rates.antt =====
-- What the worker's metrics say about its jobs.
use auto_sre.Prelude.{◌+◌, ◌≡◌, arith, length, length-append}
use auto_sre.Chaos.State.{should_inject_error}
use auto_sre.Worker.Job.{Cancel, Worker, cancelled, finish, process_job}

-- Every job, cancelled or not, is counted once and observed once, and an event is reported exactly
-- for the jobs that are counted as failed.
pub process_job_counts :
    (at : Cancel) (w : Worker)
    → let (w', ended) = process_job at w in
      (w'.durations ≡ w.durations + 1)
      × (w'.succeeded + w'.failures ≡ w.succeeded + w.failures + 1)
      × (length w'.events + w.failures ≡ length w.events + w'.failures)
unfolding process_job should_inject_error finish
process_job_counts at w = grind (arith, length-append)

-- A job that is cancelled at either of its sleeps is counted as a success.
pub cancelled_counts_success :
    (at : Cancel) (w : Worker)
    → (process_job at w).1 ≡ cancelled
    → let w' = (process_job at w).0 in (w'.succeeded ≡ w.succeeded + 1) × (w'.failures ≡ w.failures)
unfolding process_job finish
cancelled_counts_success at w h = ground arith
