-- ===== src/Storage/Backend.antt =====
-- `FileFailureStore` keeps to the interface `FailureStore`
-- (shared/autosre_shared/storage/failure_store.py).
use auto_sre.Prelude.{
  ℕ, suc, ◌-◌, length, drop, Bool-cases, inl, inr, ◌≡◌, refl, sym, ◌∙◌, ap, Option, none, some,
  List, [], ◌∷◌, ◌++◌, map,
}
use mathlib.Core.List.{map-append}
use auto_sre.Prelude.Int.{ℤ, pos}
use auto_sre.Prelude.Text.{String}
use auto_sre.Storage.Event.{FailureEvent, stamped, to_dict}
use auto_sre.Storage.FileStore.{
  Codec, ok, cut, last_events, LogFile, write_event, read_events, clear_events, record_event,
}
use auto_sre.Storage.Reading.{select, line_of, last_events-nil, read_lines-written}
use auto_sre.Storage.Routes.{listing, listing_of, list_failures, clear_failures}
use auto_sre.Storage.Recording.{Report}
use auto_sre.Storage.Store.{
  FailureStore, Use, reported, cleared, kept_after, kept_through, use_store, use_all, list_store,
}

module _ {L : Type 0} (codec : Codec L) where
  abbrev HoldsLines : List FailureEvent → LogFile codec → Type 0
  HoldsLines es none = es ≡ []
  HoldsLines es (some lines) = lines ≡ map (λ e. line_of codec e) es

  pub write_event-HoldsLines :
      (e : FailureEvent) (es : List FailureEvent) (file : LogFile codec)
      → HoldsLines es file
      → HoldsLines (es ++ e ∷ []) (write_event codec e file)
  unfolding write_event line_of
  write_event-HoldsLines e es none h = rw h refl
  write_event-HoldsLines e es (some lines) h =
      ap (λ ls. ls ++ line_of codec e ∷ []) h ∙ sym (map-append (λ e. line_of codec e) es (e ∷ []))

  pub read_events-HoldsLines :
      (limit : Option ℤ) (source : Option String) (es : List FailureEvent) (file : LogFile codec)
      → HoldsLines es file
      → read_events codec limit source file ≡ ok (last_events limit (select source es))
  unfolding read_events
  read_events-HoldsLines limit source es none h = rw h (ap ok (sym (last_events-nil limit)))
  read_events-HoldsLines limit source es (some lines) h =
      rw h (ap (cut limit) (read_lines-written codec source es))

  pub clear_events-HoldsLines : (file : LogFile codec) → HoldsLines [] (clear_events codec file)
  unfolding clear_events
  clear_events-HoldsLines none = refl
  clear_events-HoldsLines (some lines) = refl

  abbrev pub file_store : FailureStore (LogFile codec)
  file_store = record {
    write_event = write_event codec;
    read_events = read_events codec;
    clear_events = clear_events codec;
  }

  -- On the file, a use of the interface is what the program does.
  file_store-uses :
      (r : Report) (limit : ℤ) (source : Option String) (file : LogFile codec)
      → (use_store file_store (reported r) file
          ≡ record_event codec r.writable r.time r.emitted file)
        × (use_store file_store cleared file ≡ clear_failures codec file)
        × (list_store file_store limit source file ≡ list_failures codec limit source file)
  unfolding use_store record_event clear_failures list_store list_failures
  file_store-uses r limit source file = (refl, refl, refl)

  use_store-HoldsLines :
      (u : Use) (es : List FailureEvent) (file : LogFile codec)
      → HoldsLines es file
      → HoldsLines (kept_after u es) (use_store file_store u file)
  unfolding use_store
  use_store-HoldsLines (reported r) es file h = elim (Bool-cases r.writable) [
    | inl through ↦ rw through (write_event-HoldsLines (stamped r.emitted r.time) es file h)
    | inr lost ↦ rw lost h
  ]
  use_store-HoldsLines cleared es file h = clear_events-HoldsLines file

  use_all-HoldsLines :
      (uses : List Use) (es : List FailureEvent) (file : LogFile codec)
      → HoldsLines es file
      → HoldsLines (kept_through uses es) (use_all file_store uses file)
  use_all-HoldsLines [] es file h = h
  use_all-HoldsLines (u ∷ uses) es file h =
      use_all-HoldsLines uses (kept_after u es) (use_store file_store u file)
        (use_store-HoldsLines u es file h)

  -- The file serves as a list of events: after any reports to a log that did not exist, each of which
  -- may be lost, and any deletions in between, GET /failures with a limit of 1 or more lists the
  -- events whose write went through since the last deletion and that have the source asked for, in
  -- order, the last `limit` of them.
  pub file_store_lists :
      (uses : List Use) (k : ℕ) (source : Option String)
      → let chosen = select source (kept_through uses []) in
        let recent = drop (length chosen - suc k) chosen in
        list_store file_store (pos (suc k)) source (use_all file_store uses none)
        ≡ listing (length recent) (map (λ e. to_dict e) recent)
  unfolding list_store last_events
  file_store_lists uses k source = ap listing_of (
      read_events-HoldsLines (some (pos (suc k))) source (kept_through uses [])
        (use_all file_store uses none) (use_all-HoldsLines uses [] none refl))
