-- ===== src/Breaker/Tests.antt =====
-- Runs of a breaker like that of the API service, and the theorems at concrete inputs.
mod History
use auto_sre.Prelude.{
  ℕ, ◌≡◌, refl, true, false, some, List, [], ◌∷◌, ◌++◌, map, arith, ◌⊎◌, length, replicate, zero,
  suc,
}
use auto_sre.Prelude.Int.{ℤ, pos, ◌-ℤ◌, ◌≤ℤ◌, ◌<ℤ◌}
use auto_sre.Breaker.Defs.{
  closed, opened, half_open, BreakerRecord, BreakerStore, Config, World, new_record,
  in_memory_store, circuit_breaker,
}
use auto_sre.Breaker.Methods.{allow, reject, record_success, record_failure}
use auto_sre.Breaker.Invariant.{
  Op, allow_at, rejected, succeeded, failed_at, apply, run, IsValid, run-IsValid,
}
use auto_sre.Breaker.InPlace as InPlace
use auto_sre.Breaker.Refinement.{view, any_store_agrees}
use auto_sre.Breaker.Events.{IsLogged, run-IsLogged}
use auto_sre.Breaker.Transitions.{failures_open, allow-opened, recovers}
use auto_sre.Breaker.Protect.{
  Outcome, returned, raised, Exceptions, protect, protect-opened, protect_admitted, Accounted,
}

abbrev auth_config : Config
auth_config = record {
  name = "auth";
  failure_threshold = 3;
  recovery_timeout = pos 30;
  success_threshold = 2;
}

-- A store of another shape: every record saved so far, the last one first.
abbrev history_store : BreakerStore (List BreakerRecord)
history_store = record {
  load = λ s. elim s [ [] ↦ new_record | rec ∷ older ↦ rec ];
  save = λ rec s. rec ∷ s;
  load-save = λ rec s. refl;
}

abbrev fresh : World BreakerRecord
fresh = circuit_breaker in_memory_store new_record

abbrev traffic : List Op
traffic =
    failed_at (pos 1)
    ∷ failed_at (pos 2)
    ∷ failed_at (pos 3)
    ∷ allow_at (pos 10)
    ∷ rejected
    ∷ allow_at (pos 33)
    ∷ succeeded
    ∷ succeeded
    ∷ []

traffic_closes :
    let w = run in_memory_store auth_config traffic fresh in
    (w.stored ≡ new_record) × (w.open_total ≡ 1) × (w.rejections_total ≡ 1) × (length w.events ≡ 3)
unfolding run apply allow reject record_success record_failure circuit_breaker ◌-ℤ◌
traffic_closes = (refl, refl, refl, refl)

run-IsValid_example :
    IsValid history_store auth_config
      (run history_store auth_config traffic (circuit_breaker history_store []))
run-IsValid_example =
    run-IsValid history_store auth_config [] traffic (omega arith) (omega arith) refl

any_store_agrees_example :
    let w = circuit_breaker history_store [] in
    (view history_store (run history_store auth_config traffic w)
      ≡ InPlace.run auth_config traffic (view history_store w))
    × ((allow history_store auth_config (pos 40) (run history_store auth_config traffic w)).1
        ≡ (InPlace.allow auth_config
            (pos 40)
            (InPlace.run auth_config traffic (view history_store w))).1)
any_store_agrees_example =
    any_store_agrees history_store auth_config traffic (pos 40) (circuit_breaker history_store [])

failures_open_example :
    let times = pos 1 ∷ pos 2 ∷ [] in
    let before = (run in_memory_store auth_config (map failed_at times) fresh).stored in
    let after =
      (run in_memory_store auth_config
        (map failed_at times ++ failed_at (pos 3) ∷ [])
        fresh).stored in
    (before.state ≡ closed) × (after.state ≡ opened) × (after.opened_at ≡ some (pos 3))
unfolding circuit_breaker
failures_open_example =
    failures_open in_memory_store auth_config (pos 1 ∷ pos 2 ∷ []) (pos 3) fresh refl refl refl

abbrev tripped : World BreakerRecord
tripped = record {
  stored = record {
    state = opened;
    failure_count = 3;
    success_count = 0;
    opened_at = some (pos 3);
  };
  gauge = 1;
  open_total = 1;
  rejections_total = 0;
  events = [];
}

abbrev trial : World BreakerRecord
trial = record {
  stored = record {
    state = half_open;
    failure_count = 3;
    success_count = 1;
    opened_at = some (pos 3);
  };
  gauge = 2;
  open_total = 1;
  rejections_total = 0;
  events = [];
}

recovers_example :
    (run in_memory_store auth_config (allow_at (pos 33) ∷ replicate 2 succeeded) tripped).stored
    ≡ new_record
unfolding ◌-ℤ◌
recovers_example =
    recovers in_memory_store auth_config (pos 33) (pos 3) tripped refl refl (omega arith)
      (omega arith)

-- Exceptions by number: 0 is the breaker's own, and 9 is not expected.
abbrev numbered : Exceptions ℕ
numbered = record { expected = λ e. elim e [ zero ↦ true | suc k ↦ true ]; open_error = λ name. 0 }

abbrev succeeding : World BreakerRecord → World BreakerRecord × Outcome ℕ ℕ
succeeding w = (w, returned 7)

protect-opened_example :
    protect in_memory_store auth_config numbered (pos 10) (pos 11) succeeding tripped
    ≡ (record tripped { rejections_total = 1 }, raised 0)
unfolding ◌-ℤ◌
protect-opened_example =
    protect-opened in_memory_store auth_config numbered (pos 10) (pos 11) (pos 3) succeeding tripped
      refl refl (omega arith)

protect_admitted_example :
    let (w', result) =
      protect in_memory_store auth_config numbered (pos 10) (pos 11) succeeding trial in
    (result ≡ returned 7)
    × Accounted {A = ℕ} in_memory_store auth_config numbered (pos 11) trial (returned 7) w'
unfolding allow
protect_admitted_example =
    protect_admitted in_memory_store auth_config numbered (pos 10) (pos 11) succeeding trial refl
