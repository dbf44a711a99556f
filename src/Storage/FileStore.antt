-- ===== src/Storage/FileStore.antt =====
-- `FileFailureStore` of shared/autosre_shared/storage/failure_store.py: a file of lines, one JSON
-- object to a line, appended by `write_event`.
use auto_sre.Prelude.{
  zero, suc, ◌-◌, ◌≡◌, Bool, true, false, Option, none, some, List, [], ◌∷◌, ◌++◌, length, drop,
  if◌then◌else◌,
}
use auto_sre.Prelude.Int.{ℤ, pos, negsuc}
use auto_sre.Prelude.Text.{String}
use auto_sre.Storage.Json.{Json, null, bool, num, str, arr, obj, Fields, get, is_str, Emitted}
use auto_sre.Storage.Event.{FailureEvent, stamped, to_dict, from_dict}

-- What the store uses of Python's texts and of `json`, on the lines of the file: whether a line is
-- blank once stripped, `json.dumps` of a dictionary, and `json.loads` of a stripped line, with
-- `none` for a `JSONDecodeError`.
pub record Codec (L : Type 0) : Type 0 where
  pub is_blank : L → Bool
  pub dumps : Fields → L
  pub loads : L → Option Json
  pub is_blank-dumps : (d : Fields) → is_blank (dumps d) ≡ false
  pub loads-dumps : (d : Fields) → loads (dumps d) ≡ some (obj d)

-- A read returns the events, or the `AttributeError` of `d.get` on what is no dictionary ends it.
pub data ReadResult : Type 0 where
  ok : List FailureEvent → ReadResult
  attribute_error : ReadResult

abbrev pub prepend : FailureEvent → ReadResult → ReadResult
prepend e (ok es) = ok (e ∷ es)
prepend e attribute_error = attribute_error

-- Not `source is not None and d.get("source") != source`.
abbrev pub wanted : Option String → Fields → Bool
wanted none d = true
wanted (some source) d = elim (get "source" d) [ none ↦ false | some v ↦ is_str v source ]

-- `events[start:]` for `start = -limit`: from the end for a positive limit, from the front else.
unfoldable pub last_events : Option ℤ → List FailureEvent → List FailureEvent
last_events none events = events
last_events (some (pos zero)) events = events
last_events (some (pos (suc k))) events = drop (length events - suc k) events
last_events (some (negsuc k)) events = drop (suc k) events

abbrev pub cut : Option ℤ → ReadResult → ReadResult
cut limit (ok events) = ok (last_events limit events)
cut limit attribute_error = attribute_error

module _ {L : Type 0} (codec : Codec L) where
  -- One round of the loop over the decoded value, with the events of the lines below.
  unfoldable pub read_value : Option String → Json → ReadResult → ReadResult
  read_value source (obj d) rest = if wanted source d then prepend (from_dict d) rest else rest
  read_value source null rest = attribute_error
  read_value source (bool b) rest = attribute_error
  read_value source (num n) rest = attribute_error
  read_value source (str s) rest = attribute_error
  read_value source (arr xs) rest = attribute_error

  unfoldable pub read_line : Option String → L → ReadResult → ReadResult
  unfolding read_value
  read_line source line rest =
      if codec.is_blank line
      then rest
      else elim (codec.loads line) [ none ↦ rest | some value ↦ read_value source value rest ]

  unfoldable pub read_lines : Option String → List L → ReadResult
  read_lines source [] = ok []
  read_lines source (line ∷ lines) = read_line source line (read_lines source lines)

  -- The file: `none` while it does not exist.
  abbrev pub LogFile : Type 0
  LogFile = Option (List L)

  unfoldable pub write_event : FailureEvent → LogFile → LogFile
  write_event e none = some (codec.dumps (to_dict e) ∷ [])
  write_event e (some lines) = some (lines ++ codec.dumps (to_dict e) ∷ [])

  unfoldable pub read_events : Option ℤ → Option String → LogFile → ReadResult
  read_events limit source none = ok []
  read_events limit source (some lines) = cut limit (read_lines source lines)

  unfoldable pub clear_events : LogFile → LogFile
  clear_events none = none
  clear_events (some lines) = some []

  -- `record_event` on this store: `writable` is whether the append goes through; an exception is
  -- logged and dropped.
  unfoldable pub record_event : Bool → String → Emitted → LogFile → LogFile
  record_event writable now e file = if writable then write_event (stamped e now) file else file
