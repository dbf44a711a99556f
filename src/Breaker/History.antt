-- ===== src/Breaker/History.antt =====
-- A breaker's history as the failure log shows it: the events that its methods report, written to
-- the log and read back through GET /failures.
use auto_sre.Prelude.{
  ℕ, suc, ◌+◌, ◌-◌, ◌≤◌, ◌≡◌, refl, ap, ◌∙◌, true, Option, none, some, List, [], ◌∷◌, ◌++◌, map,
  arith, length, if◌then◌else◌,
}
use auto_sre.Prelude.Int.{pos}
use auto_sre.Prelude.Text.{String, str_eq}
use auto_sre.Storage.Json.{Json, null, bool, num, str, arr, obj, Fields, end, get, Emitted}
use auto_sre.Storage.Source
use auto_sre.Storage.Event.{to_dict}
use auto_sre.Storage.FileStore.{Codec}
use auto_sre.Storage.Reading.{select}
use auto_sre.Storage.Routes.{Listing, listing, server_error, list_failures}
use auto_sre.Storage.Recording.{Report, kept, record_all, list_failures-record_all}
use auto_sre.Breaker.Defs.{
  BreakerState, closed, BreakerStore, Config, World, new_record, circuit_breaker,
}
use auto_sre.Breaker.Methods.{state, allow, reject, record_success, record_failure}
use auto_sre.Breaker.Invariant.{Op, allow_at, rejected, succeeded, failed_at, apply, run}
use auto_sre.Breaker.Events.{event_state, replay, run-IsLogged}

-- The events of another source.
abbrev foreign : List Emitted → ℕ
foreign [] = 0
foreign (e ∷ es) = (if str_eq e.source Source.circuit_breaker then 0 else 1) + foreign es

foreign-append :
    (es : List Emitted) (e : Emitted) → foreign (es ++ e ∷ []) ≡ foreign es + foreign (e ∷ [])
foreign-append [] e = omega arith
foreign-append (x ∷ es) e = omega (arith, foreign-append es e)

module _ {S : Type 0} (st : BreakerStore S) (cfg : Config) where
  apply_keeps-foreign :
      (op : Op) (w : World S) → foreign w.events ≡ 0 → foreign (apply st cfg op w).events ≡ 0
  unfolding apply allow reject record_success record_failure
  apply_keeps-foreign (allow_at now) w h = grind (arith, foreign-append)
  apply_keeps-foreign rejected w h = h
  apply_keeps-foreign succeeded w h = grind (arith, foreign-append)
  apply_keeps-foreign (failed_at now) w h = grind (arith, foreign-append)

  run_keeps-foreign :
      (ops : List Op) (w : World S) → foreign w.events ≡ 0 → foreign (run st cfg ops w).events ≡ 0
  unfolding run
  run_keeps-foreign [] w h = h
  run_keeps-foreign (op ∷ ops) w h =
      run_keeps-foreign ops (apply st cfg op w) (apply_keeps-foreign op w h)

-- Reports whose writes all go through.
abbrev pub reported : List (String × Emitted) → List Report
reported [] = []
reported ((time, e) ∷ reports) =
    record { writable = true; time = time; emitted = e } ∷ reported reports

abbrev events_of : List (String × Emitted) → List Emitted
events_of [] = []
events_of ((time, e) ∷ reports) = e ∷ events_of reports

select_own :
    (reports : List (String × Emitted))
    → foreign (events_of reports) ≡ 0
    → select (some Source.circuit_breaker) (kept (reported reports)) ≡ kept (reported reports)
select_own [] h = refl
select_own ((time, e) ∷ reports) h = ground (arith, select_own reports)

length-reported :
    (reports : List (String × Emitted)) → length (kept (reported reports)) ≡ length reports
length-reported [] = refl
length-reported (r ∷ reports) = rw (length-reported reports)

-- The state that a reader takes from the event of a dictionary, and from an answer read in order.
abbrev text_state : Option Json → BreakerState → BreakerState
text_state none s = s
text_state (some null) s = s
text_state (some (bool b)) s = s
text_state (some (num n)) s = s
text_state (some (arr xs)) s = s
text_state (some (obj fields)) s = s
text_state (some (str text)) s = event_state (record { source = ""; event = text; details = end }) s

abbrev pub read_history : BreakerState → List Fields → BreakerState
read_history s [] = s
read_history s (d ∷ ds) = read_history (text_state (get "event" d) s) ds

read_history-replay :
    (s : BreakerState) (reports : List (String × Emitted))
    → read_history s (map (λ e. to_dict e) (kept (reported reports))) ≡ replay s (events_of reports)
unfolding to_dict
read_history-replay s [] = refl
read_history-replay s ((time, e) ∷ reports) = read_history-replay (event_state e s) reports

abbrev pub dicts_of : Listing → List Fields
dicts_of (listing n ds) = ds
dicts_of server_error = []

module _ {S L : Type 0} (codec : Codec L) (st : BreakerStore S) (cfg : Config) where
  -- After any sequence of method calls on a breaker built over the initial record, if the writes of
  -- the events that it reported all go through to a new log, GET /failures for the source
  -- "circuit_breaker", with a limit that is no less than their number, lists them all, and who reads
  -- the answer in order from CLOSED comes to the state that the breaker is in.
  pub listed_history :
      (k : ℕ) (s : S) (ops : List Op) (reports : List (String × Emitted))
      → st.load s ≡ new_record
      → events_of reports ≡ (run st cfg ops (circuit_breaker st s)).events
      → length reports ≤ suc k
      → let w = run st cfg ops (circuit_breaker st s) in
        let file = record_all codec (reported reports) none in
        let answer = list_failures codec (pos (suc k)) (some Source.circuit_breaker) file in
        (answer ≡ listing (length reports) (map (λ e. to_dict e) (kept (reported reports))))
        × (read_history closed (dicts_of answer) ≡ state st cfg w)
  unfolding circuit_breaker
  listed_history k s ops reports fresh same few =
      let own = run_keeps-foreign st cfg ops (circuit_breaker st s) refl in
      let chosen = select_own reports (ap foreign same ∙ own) in
      let logged = run-IsLogged st cfg s ops fresh in
      let (all, _) =
        list_failures-record_all codec k (some Source.circuit_breaker) (reported reports) [] in
      let fits : length (kept (reported reports)) - suc k ≡ 0 =
        omega (arith, length-reported reports) in
      let full = all ∙ rw (chosen, fits, length-reported reports) refl in
      (
        full,
        rw full (read_history-replay closed reports ∙ ap (replay closed) same ∙ logged.replayed),
      )
