-- ===== src/Storage/Recording.antt =====
-- What GET /failures shows of the events that the components report: the reports are written as they
-- come, each if its write goes through, and read back by the route.
use auto_sre.Prelude.{
  ℕ, suc, ◌-◌, ◌≡◌, refl, ap, ◌∙◌, Bool, Option, none, some, List, [], ◌∷◌, map, length, drop,
  if◌then◌else◌, Bool-cases, inl, inr,
}
use auto_sre.Prelude.Int.{pos}
use auto_sre.Prelude.Text.{String}
use auto_sre.Storage.Json.{Emitted}
use auto_sre.Storage.Event.{FailureEvent, stamped, to_dict}
use auto_sre.Storage.FileStore.{
  Codec, LogFile, write_event, read_events, record_event, clear_events, last_events,
}
use auto_sre.Storage.Reading.{select, write_all, read_events-written, read_events-emptied}
use auto_sre.Storage.Routes.{listing, listing_of, list_failures, clear_failures}

-- One call of `record_event`: whether the append goes through, the time, and the arguments.
pub record Report : Type 0 where
  pub writable : Bool
  pub time : String
  pub emitted : Emitted

-- The events that reach the file.
abbrev pub kept : List Report → List FailureEvent
kept [] = []
kept (r ∷ reports) =
    let rest = kept reports in if r.writable then stamped r.emitted r.time ∷ rest else rest

module _ {L : Type 0} (codec : Codec L) where
  pub record_all : List Report → LogFile codec → LogFile codec
  record_all [] file = file
  record_all (r ∷ reports) file =
      record_all reports (record_event codec r.writable r.time r.emitted file)

  record_all-kept :
      (reports : List Report) (file : LogFile codec)
      → record_all reports file ≡ write_all codec (kept reports) file
  unfolding record_all record_event write_all
  record_all-kept [] file = refl
  record_all-kept (r ∷ reports) file = elim (Bool-cases r.writable) [
    | inl through ↦
        rw (record_all, record_event, through)
          (record_all-kept reports (write_event codec (stamped r.emitted r.time) file))
    | inr lost ↦ rw (record_all, record_event, lost) (record_all-kept reports file)
  ]

  -- Of reports to a log that did not exist, or that DELETE /failures has just emptied, GET /failures
  -- with a limit of 1 or more lists those whose write went through and that have the source asked
  -- for, in order, the last `limit` of them; a report that is lost leaves no trace.
  pub list_failures-record_all :
      (k : ℕ) (source : Option String) (reports : List Report) (old : List L)
      → let chosen = select source (kept reports) in
        let recent = drop (length chosen - suc k) chosen in
        let answer = listing (length recent) (map (λ e. to_dict e) recent) in
        (list_failures codec (pos (suc k)) source (record_all reports none) ≡ answer)
        × (list_failures codec
              (pos (suc k))
              source
              (record_all reports (clear_failures codec (some old)))
            ≡ answer)
  unfolding list_failures clear_failures clear_events last_events
  list_failures-record_all k source reports old =
      let limit = some (pos (suc k)) in
      (
        ap listing_of (
            ap (read_events codec limit source) (record_all-kept reports none)
            ∙ read_events-written codec limit source (kept reports)),
        ap listing_of (
            ap (read_events codec limit source) (record_all-kept reports (some []))
            ∙ read_events-emptied codec limit source (kept reports)),
      )
