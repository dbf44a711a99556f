-- ===== src/Breaker/Tests/History.antt =====
-- A breaker that opens, seen through the failure log.
use auto_sre.Prelude.{◌≡◌, refl, false, none, some, List, [], ◌∷◌, map, arith}
use auto_sre.Prelude.Int.{pos}
use auto_sre.Prelude.Text.{String}
use auto_sre.Storage.Json.{Fields, obj, Emitted}
use auto_sre.Storage.Source
use auto_sre.Storage.Event.{to_dict}
use auto_sre.Storage.FileStore.{Codec}
use auto_sre.Storage.Recording.{kept, record_all}
use auto_sre.Storage.Routes.{listing, list_failures}
use auto_sre.Breaker.Defs.{closed, new_record, in_memory_store, Config, circuit_breaker}
use auto_sre.Breaker.Methods.{state, record_failure, opened_event}
use auto_sre.Breaker.Invariant.{Op, failed_at, apply, run}
use auto_sre.Breaker.History.{reported, read_history, dicts_of, listed_history}

abbrev config : Config
config = record {
  name = "auth";
  failure_threshold = 2;
  recovery_timeout = pos 30;
  success_threshold = 2;
}

-- Lines that are their own dictionaries.
abbrev plain : Codec Fields
plain = record {
  is_blank = λ line. false;
  dumps = λ d. d;
  loads = λ line. some (obj line);
  is_blank-dumps = λ d. refl;
  loads-dumps = λ d. refl;
}

abbrev failures : List Op
failures = failed_at (pos 1) ∷ failed_at (pos 2) ∷ []

abbrev reports : List (String × Emitted)
reports = ("2026-01-01T00:00:00", opened_event config 2) ∷ []

listed_history_example :
    let w = run in_memory_store config failures (circuit_breaker in_memory_store new_record) in
    let file = record_all plain (reported reports) none in
    let answer = list_failures plain (pos 10) (some Source.circuit_breaker) file in
    (answer ≡ listing 1 (map (λ e. to_dict e) (kept (reported reports))))
    × (read_history closed (dicts_of answer) ≡ state in_memory_store config w)
unfolding circuit_breaker run apply record_failure
listed_history_example =
    listed_history plain in_memory_store config 9 new_record failures reports refl refl
      (omega arith)
