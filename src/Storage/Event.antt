-- ===== src/Storage/Event.antt =====
-- `FailureEvent` of shared/autosre_shared/storage/failure_store.py. Its fields are not checked when
-- an event is read back, so each holds any JSON value.
use auto_sre.Prelude.{◌≡◌, refl, none, some}
use auto_sre.Prelude.Text.{String}
use auto_sre.Storage.Json.{Json, str, obj, Fields, end, field, get, Emitted}

pub record FailureEvent : Type 0 where
  pub source : Json
  pub event : Json
  pub details : Json
  pub timestamp : Json

-- `FailureEvent(source=source, event=event, details=details)`, made at `now`.
abbrev pub stamped : Emitted → String → FailureEvent
stamped e now = record {
  source = str e.source;
  event = str e.event;
  details = obj e.details;
  timestamp = str now;
}

unfoldable pub to_dict : FailureEvent → Fields
to_dict e =
    field "timestamp" e.timestamp
      (field "source" e.source (field "event" e.event (field "details" e.details end)))

-- `d.get(key, default)`
abbrev get_default : String → Json → Fields → Json
get_default key default d = elim (get key d) [ some v ↦ v | none ↦ default ]

pub from_dict : Fields → FailureEvent
from_dict d = record {
  source = get_default "source" (str "unknown") d;
  event = get_default "event" (str "unknown") d;
  details = get_default "details" (obj end) d;
  timestamp = get_default "timestamp" (str "") d;
}

-- An event that is written as a dictionary is read back unchanged.
pub from_dict-to_dict : (e : FailureEvent) → from_dict (to_dict e) ≡ e
unfolding from_dict to_dict
from_dict-to_dict e = refl
