-- ===== src/Storage/Tests.antt =====
-- A file of three kinds of lines, and the theorems about the failure log at concrete inputs.
use Prim.Native.Nat.{min}
use auto_sre.Prelude.{
  ◌-◌, ◌≡◌, refl, Bool, true, false, Option, none, some, List, [], ◌∷◌, length, drop, map,
}
use auto_sre.Prelude.Text.{String}
use auto_sre.Prelude.Int.{pos, negsuc}
use auto_sre.Storage.Json.{Json, obj, end, Emitted}
use auto_sre.Storage.Source
use auto_sre.Storage.Event.{FailureEvent, stamped, to_dict, from_dict, from_dict-to_dict}
use auto_sre.Storage.FileStore.{Codec, ok, read_events, clear_events, read_lines, last_events}
use auto_sre.Storage.Reading.{select, write_all, read_events-write_all}
use auto_sre.Storage.Recording.{Report}
use auto_sre.Storage.Routes.{listing}
use auto_sre.Storage.Store.{
  Use, reported, cleared as cleared_log, kept_through, use_all, list_store,
}
use auto_sre.Storage.Backend.{file_store, file_store_lists}

data Line : Type 0 where
  blank : Line
  garbage : Line
  value : Json → Line

abbrev line_is_blank : Line → Bool
line_is_blank blank = true
line_is_blank garbage = false
line_is_blank (value v) = false

abbrev decoded : Line → Option Json
decoded blank = none
decoded garbage = none
decoded (value v) = some v

abbrev lines : Codec Line
lines = record {
  is_blank = line_is_blank;
  dumps = λ d. value (obj d);
  loads = decoded;
  is_blank-dumps = λ d. refl;
  loads-dumps = λ d. refl;
}

abbrev rejected : FailureEvent
rejected = stamped (record { source = Source.rate_limit; event = "rejected"; details = end }) "t1"

abbrev chaos_reset : FailureEvent
chaos_reset = stamped (record { source = Source.chaos; event = "reset"; details = end }) "t2"

abbrev latency_enable : FailureEvent
latency_enable =
    stamped (record { source = Source.chaos; event = "latency_enable"; details = end }) "t0"

abbrev three : List FailureEvent
three = latency_enable ∷ rejected ∷ chaos_reset ∷ []

filters :
    read_events lines none (some "chaos") (write_all lines three none)
    ≡ ok (latency_enable ∷ chaos_reset ∷ [])
filters = (read_events-write_all lines 0 (some "chaos") three).0

-- A negative limit drops events from the front, as the slice does.
negative_limit : last_events (some (negsuc 0)) three ≡ rejected ∷ chaos_reset ∷ []
unfolding last_events
negative_limit = refl

cleared : read_events lines none none (clear_events lines (some (garbage ∷ []))) ≡ ok []
unfolding read_events clear_events read_lines last_events
cleared = refl

from_dict-to_dict_example : from_dict (to_dict rejected) ≡ rejected
from_dict-to_dict_example = from_dict-to_dict rejected

read_events-write_all_example :
    let chosen = select (some "chaos") three in
    let file = write_all lines three none in
    let recent = drop (length chosen - 1) chosen in
    (read_events lines none (some "chaos") file ≡ ok chosen)
    × (read_events lines (some (pos 1)) (some "chaos") file ≡ ok recent)
    × (length recent ≡ min 1 (length chosen))
read_events-write_all_example = read_events-write_all lines 0 (some "chaos") three

abbrev emitted_by : String → Emitted
emitted_by source = record { source = source; event = "seen"; details = end }

-- Three reports, of which the second is lost.
abbrev reports : List Report
reports =
    record { writable = true; time = "t1"; emitted = emitted_by "chaos" }
    ∷ record { writable = false; time = "t2"; emitted = emitted_by "chaos" }
    ∷ record { writable = true; time = "t3"; emitted = emitted_by "rate_limit" }
    ∷ []

-- The log is deleted before the last of them.
abbrev some_uses : List Use
some_uses =
    reported (record { writable = true; time = "t1"; emitted = emitted_by "chaos" })
    ∷ cleared_log
    ∷ reported (record { writable = true; time = "t3"; emitted = emitted_by "rate_limit" })
    ∷ []

file_store_lists_example :
    let chosen = select none (kept_through some_uses []) in
    let recent = drop (length chosen - 5) chosen in
    list_store (file_store lines) (pos 5) none (use_all (file_store lines) some_uses none)
    ≡ listing (length recent) (map (λ e. to_dict e) recent)
file_store_lists_example = file_store_lists lines some_uses 4 none
