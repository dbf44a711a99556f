-- ===== src/Breaker/Defs.antt =====
-- The state of a circuit breaker (shared/autosre_shared/resilience/circuit_breaker.py): the record
-- behind `BreakerStore`, and the configuration, metrics and reported events of one breaker.
use auto_sre.Prelude.{ℕ, ◌+◌, ◌≡◌, refl, Bool, true, false, Option, none, some, List, [], ◌∷◌, ◌++◌}
use auto_sre.Prelude.Int.{ℤ, pos}
use auto_sre.Prelude.Text.{String}
use auto_sre.Storage.{Emitted, Fields, field, str}
use auto_sre.Storage.Source

pub data BreakerState : Type 0 where
  closed opened half_open : BreakerState

-- `_STATE_VALUE`
abbrev pub state_value : BreakerState → ℕ
state_value closed = 0
state_value opened = 1
state_value half_open = 2

abbrev pub is_opened : BreakerState → Bool
is_opened opened = true
is_opened closed = false
is_opened half_open = false

abbrev pub is_half_open : BreakerState → Bool
is_half_open half_open = true
is_half_open closed = false
is_half_open opened = false

-- The text of `rec.state.value`.
abbrev pub state_text : BreakerState → String
state_text closed = "closed"
state_text opened = "open"
state_text half_open = "half_open"

pub record BreakerRecord : Type 0 where
  pub state : BreakerState
  pub failure_count : ℕ
  pub success_count : ℕ
  pub opened_at : Option ℤ

abbrev pub new_record : BreakerRecord
new_record = record { state = closed; failure_count = 0; success_count = 0; opened_at = none }

-- The abstract class `BreakerStore`: what is saved is what is loaded next.
pub record BreakerStore (S : Type 0) : Type 0 where
  pub load : S → BreakerRecord
  pub save : BreakerRecord → S → S
  pub load-save : (rec : BreakerRecord) (s : S) → load (save rec s) ≡ rec

-- `InMemoryStore`, by what it holds between the calls of methods. Its `load` hands out the object that
-- the methods then change; Breaker/InPlace.antt has them so.
abbrev pub in_memory_store : BreakerStore BreakerRecord
in_memory_store = record { load = λ s. s; save = λ rec s. rec; load-save = λ rec s. refl }

-- What the constructor of `CircuitBreaker` is given and keeps.
pub record Config : Type 0 where
  pub name : String
  pub failure_threshold : ℕ
  pub recovery_timeout : ℤ
  pub success_threshold : ℕ

-- The store, the three metrics under the breaker's name, and the events reported so far.
pub record World (S : Type 0) : Type 0 where
  pub stored : S
  pub gauge : ℕ
  pub open_total : ℕ
  pub rejections_total : ℕ
  pub events : List Emitted

-- `rec.opened_at or 0.0`
abbrev pub or_zero : Option ℤ → ℤ
or_zero none = pos 0
or_zero (some t) = t

-- `record_event(Source.CIRCUIT_BREAKER, event, name=self.name, …)`
abbrev pub report : Config → String → Fields → Emitted
report cfg event more = record {
  source = Source.circuit_breaker;
  event = event;
  details = field "name" (str cfg.name) more;
}

module _ {S : Type 0} where
  abbrev pub emit : Emitted → World S → World S
  emit e w = record w { events = w.events ++ e ∷ [] }

  -- `circuit_breaker_open_total.labels(name=self.name).inc()`
  abbrev pub count_open : World S → World S
  count_open w = record w { open_total = w.open_total + 1 }

  -- `CircuitBreaker.__init__`: the gauge shows the state that the store holds; no event yet.
  unfoldable pub circuit_breaker : BreakerStore S → S → World S
  circuit_breaker st s = record {
    stored = s;
    gauge = state_value (st.load s).state;
    open_total = 0;
    rejections_total = 0;
    events = [];
  }

  -- `_set_state`: the record with the new state, and the gauge that shows it.
  abbrev pub set_state : BreakerRecord → BreakerState → World S → BreakerRecord × World S
  set_state rec s w = (record rec { state = s }, record w { gauge = state_value s })
