-- ===== src/Storage/Reading.antt =====
-- What is read back from the failure log (`FileFailureStore.read_events`).
use Prim.Native.Nat.{min}
use auto_sre.Prelude.{
  ℕ, zero, suc, ◌-◌, ◌≡◌, refl, sym, ap, ◌∙◌, Bool, true, Option, none, some, List, [], ◌∷◌, ◌++◌,
  map, arith, length, take, drop, append_assoc, length-drop, drop-nil, take-append-drop, append-nil,
  if◌then◌else◌,
}
use auto_sre.Prelude.Int.{ℤ, pos, negsuc}
use auto_sre.Prelude.Text.{String}
use auto_sre.Storage.Json.{is_str}
use auto_sre.Storage.Event.{FailureEvent, to_dict, from_dict-to_dict}
use auto_sre.Storage.FileStore.{
  Codec, ok, wanted, last_events, cut, read_value, read_line, read_lines, LogFile, write_event,
  read_events,
}

-- The events of one source, or all of them.
abbrev is_from : Option String → FailureEvent → Bool
is_from none e = true
is_from (some source) e = is_str e.source source

abbrev pub select : Option String → List FailureEvent → List FailureEvent
select source [] = []
select source (e ∷ es) = let rest = select source es in if is_from source e then e ∷ rest else rest

pub last_events-nil : (limit : Option ℤ) → last_events limit [] ≡ []
unfolding last_events
last_events-nil none = refl
last_events-nil (some (pos zero)) = refl
last_events-nil (some (pos (suc k))) = drop-nil (0 - suc k)
last_events-nil (some (negsuc k)) = refl

wanted-to_dict :
    (source : Option String) (e : FailureEvent) → wanted source (to_dict e) ≡ is_from source e
unfolding to_dict
wanted-to_dict none e = refl
wanted-to_dict (some s) e = refl

-- The last `suc k` elements, or all if there are fewer.
last_events_suffix :
    (k : ℕ) (es : List FailureEvent)
    → let tail = last_events (some (pos (suc k))) es in
      (take (length es - suc k) es ++ tail ≡ es) × (length tail ≡ min (suc k) (length es))
unfolding last_events
last_events_suffix k es =
    (take-append-drop (length es - suc k) es, omega (arith, length-drop (length es - suc k) es))

module _ {L : Type 0} (codec : Codec L) where
  -- The file after the events have been written to it, in order.
  unfoldable pub write_all : List FailureEvent → LogFile codec → LogFile codec
  write_all [] file = file
  write_all (e ∷ es) file = write_all es (write_event codec e file)

  unfoldable pub line_of : FailureEvent → L
  line_of e = codec.dumps (to_dict e)

  write_all_lines :
      (es : List FailureEvent) (lines : List L)
      → write_all es (some lines) ≡ some (lines ++ map line_of es)
  unfolding write_all write_event line_of
  write_all_lines [] lines = rw append-nil
  write_all_lines (e ∷ es) lines =
      write_all_lines es (lines ++ line_of e ∷ [])
      ∙ ap some (append_assoc lines (line_of e ∷ []) (map line_of es))

  pub read_lines-written :
      (source : Option String) (es : List FailureEvent)
      → read_lines codec source (map line_of es) ≡ ok (select source es)
  unfolding read_lines read_line read_value line_of
  read_lines-written source [] = refl
  read_lines-written source (e ∷ es) =
      rw
        (
          codec.is_blank-dumps (to_dict e),
          codec.loads-dumps (to_dict e),
          wanted-to_dict source e,
          from_dict-to_dict e,
          read_lines-written source es,
        )
        (ground arith)

  pub read_events-written :
      (limit : Option ℤ) (source : Option String) (es : List FailureEvent)
      → read_events codec limit source (write_all es none)
        ≡ ok (last_events limit (select source es))
  unfolding read_events write_event write_all line_of
  read_events-written limit source [] = ap ok (sym (last_events-nil limit))
  read_events-written limit source (e ∷ es) =
      ap (read_events codec limit source) (write_all_lines es (line_of e ∷ []))
      ∙ ap (cut limit) (read_lines-written source (e ∷ es))

  pub read_events-emptied :
      (limit : Option ℤ) (source : Option String) (es : List FailureEvent)
      → read_events codec limit source (write_all es (some []))
        ≡ ok (last_events limit (select source es))
  unfolding read_events write_all line_of
  read_events-emptied limit source es =
      ap (read_events codec limit source) (write_all_lines es [])
      ∙ ap (cut limit) (read_lines-written source es)

  -- Events that were written to a log that did not exist are read back as they were and in the
  -- order of writing: those of the source asked for, or all if none is asked for, and of these the
  -- last `limit`, or all if there are fewer, for a positive limit.
  pub read_events-write_all :
      (k : ℕ) (source : Option String) (es : List FailureEvent)
      → let chosen = select source es in
        let file = write_all es none in
        let recent = drop (length chosen - suc k) chosen in
        (read_events codec none source file ≡ ok chosen)
        × (read_events codec (some (pos (suc k))) source file ≡ ok recent)
        × (length recent ≡ min (suc k) (length chosen))
  unfolding last_events
  read_events-write_all k source es = (
    read_events-written none source es,
    read_events-written (some (pos (suc k))) source es,
    (last_events_suffix k (select source es)).1,
  )

  -- A limit of 0 limits nothing: it reads what is read with no limit, whatever the file holds.
  limit_zero_reads_all :
      (source : Option String) (file : LogFile codec)
      → read_events codec (some (pos 0)) source file ≡ read_events codec none source file
  unfolding read_events last_events
  limit_zero_reads_all source none = refl
  limit_zero_reads_all source (some lines) = ground arith
