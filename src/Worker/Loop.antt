-- ===== src/Worker/Loop.antt =====
-- The loop of worker/main.py as a task of the application: `_job_loop`, `_startup`, `_shutdown`,
-- within the lifespan of shared/autosre_shared/app.py.
use auto_sre.Prelude.{ℕ, suc, ◌+◌, ◌≡◌, refl, false, Option, none, some, List, [], ◌∷◌, arith}
use auto_sre.Chaos.State.{ChaosState}
use auto_sre.Worker.Job.{Cancel, never, Worker, process_job}
use auto_sre.Worker.Rates.{process_job_counts}
use auto_sre.Service.Lifespan.{Hook, left, lifespan, enter, leave, run_hook}

-- Where the task is when it is cancelled: before its first step or in the sleep between two jobs, or
-- in a sleep of a job. A job that does not come to that sleep ends first.
pub data Point : Type 0 where
  waiting : Point
  in_job : Cancel → Point

-- `app.state.job_task`, once there is one.
pub data Task : Type 0 where
  under_way : Task
  ended : Task

pub record App : Type 0 where
  pub worker : Worker
  pub job_task : Option Task

-- `_startup`
pub startup : Hook App
startup app = (record app { job_task = some under_way }, false)

-- What happens while the service is up: a round of `_job_loop` up to its sleep between two jobs, or a
-- request that changes the chaos state.
pub data Event : Type 0 where
  round : Event
  control : (ChaosState → ChaosState) → Event

unfoldable happens : Event → App → App
happens (control change) app = record app {
  worker = record app.worker { state = change app.worker.state };
}
happens round app = elim app.job_task [
  | none ↦ app
  | some ended ↦ app
  | some under_way ↦ record app { worker = (process_job never app.worker).0 }
]

pub serving : List Event → App → App
serving [] app = app
serving (e ∷ events) app = serving events (happens e app)

-- `_job_loop` from the `cancel()` of the task on.
unfoldable cancel_loop : Point → Worker → Worker
cancel_loop waiting w = w
cancel_loop (in_job at) w = (process_job at w).0

-- `_shutdown`: the task is cancelled and awaited; its `CancelledError` is swallowed.
pub shutdown : Point → Hook App
shutdown point app = elim app.job_task [
  | none ↦ (app, false)
  | some ended ↦ (app, false)
  | some under_way ↦
      (record { worker = cancel_loop point app.worker; job_task = some ended }, false)
]

-- The jobs that were begun.
abbrev rounds : List Event → ℕ
rounds [] = 0
rounds (round ∷ events) = suc (rounds events)
rounds (control change ∷ events) = rounds events

abbrev pub begun : Point → ℕ
begun waiting = 0
begun (in_job at) = 1

-- The counts of `w'` are those of `w` and `n` more jobs.
abbrev pub Counted : Worker → ℕ → Worker → Type 0
Counted w n w' =
    (w'.durations ≡ w.durations + n) × (w'.succeeded + w'.failures ≡ w.succeeded + w.failures + n)

round_works :
    (app : App)
    → app.job_task ≡ some under_way
    → happens round app ≡ record app { worker = (process_job never app.worker).0 }
unfolding happens
round_works app e = rw e refl

shutdown_ends :
    (point : Point) (app : App)
    → app.job_task ≡ some under_way
    → shutdown point app
      ≡ (record { worker = cancel_loop point app.worker; job_task = some ended }, false)
unfolding shutdown
shutdown_ends point app e = rw e refl

serving-Counted :
    (events : List Event) (app : App)
    → app.job_task ≡ some under_way
    → let app' = serving events app in
      (app'.job_task ≡ some under_way) × Counted app.worker (rounds events) app'.worker
unfolding serving happens
serving-Counted [] app e = (e, (omega arith, omega arith))
serving-Counted (round ∷ events) app e =
    let w' = (process_job never app.worker).0 in
    let (kept, (d, n)) = serving-Counted events (record app { worker = w' }) e in
    let (d', n', _) = process_job_counts never app.worker in
    rw (serving, round_works app e) (kept, (omega arith, omega arith))
serving-Counted (control change ∷ events) app e =
    serving-Counted events (happens (control change) app) e

cancel_loop-Counted : (point : Point) (w : Worker) → Counted w (begun point) (cancel_loop point w)
unfolding cancel_loop
cancel_loop-Counted waiting w = omega arith
cancel_loop-Counted (in_job at) w = omega (arith, process_job_counts at w)

-- A worker service that starts, works on jobs while requests change the chaos state in between, and
-- is shut down wherever its loop then is, ends with its task ended and `service_up` at 0; every job
-- that was begun, the one that the shutdown met included, was counted once and observed once.
pub lifespan_counts :
    (events : List Event) (point : Point) (app : App)
    → let r = lifespan (some startup) (some (shutdown point)) (serving events) app in
      (r.phase ≡ left)
      × (r.service_up ≡ 0)
      × (r.app.job_task ≡ some ended)
      × Counted app.worker (rounds events + begun point) r.app.worker
unfolding lifespan enter leave run_hook startup
lifespan_counts events point app =
    let started = record app { job_task = some under_way } in
    let app' = serving events started in
    let (kept, (d, n)) = serving-Counted events started refl in
    let (d', n') = cancel_loop-Counted point app'.worker in
    rw (shutdown_ends point app' kept) (refl, refl, refl, (omega arith, omega arith))
