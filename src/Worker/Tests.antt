-- ===== src/Worker/Tests.antt =====
-- A worker under chaos, and the theorems about its jobs at concrete inputs.
use auto_sre.Prelude.{◌≡◌, true, false, none, some, List, [], ◌∷◌}
use auto_sre.Service.Lifespan.{left, lifespan}
use auto_sre.Worker.Loop.{
  Event, round, control, in_job, ended, startup, shutdown, serving, Counted, lifespan_counts,
}
use auto_sre.Chaos.State.{new_state}
use auto_sre.Worker.Job.{Worker, in_work}

abbrev busy : Worker
busy = record {
  state = record new_state { error_enabled = true; error_rate = 25_000_000 };
  succeeded = 0;
  failures = 0;
  durations = 0;
  slept = [];
  events = [];
}

-- Two jobs with a change of the chaos state between them, and a third that the shutdown meets.
abbrev day : List Event
day = round ∷ control (λ s. record s { error_enabled = false }) ∷ round ∷ []

lifespan_counts_example :
    let r =
      lifespan
        (some startup)
        (some (shutdown (in_job in_work)))
        (serving day)
        (record { worker = busy; job_task = none }) in
    (r.phase ≡ left)
    × (r.service_up ≡ 0)
    × (r.app.job_task ≡ some ended)
    × Counted busy 3 r.app.worker
lifespan_counts_example =
    lifespan_counts day (in_job in_work) (record { worker = busy; job_task = none })
