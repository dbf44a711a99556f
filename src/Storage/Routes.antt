-- ===== src/Storage/Routes.antt =====
-- The store that the process uses, and the routes under /failures (failure_store.py of
-- shared/autosre_shared/storage).
use auto_sre.Prelude.{ℕ, Option, none, some, List, map, length}
use auto_sre.Prelude.Int.{ℤ}
use auto_sre.Prelude.Text.{String}
use auto_sre.Storage.Json.{Fields}
use auto_sre.Storage.Event.{to_dict}
use auto_sre.Storage.FileStore.{
  Codec, LogFile, ReadResult, ok, attribute_error, read_events, clear_events,
}

-- `_default_path`; `join` is `os.path.join`.
or_text : Option String → String → String
or_text none default = default
or_text (some value) default = value

unfoldable default_path : (String → String → String) → (String → Option String) → String
unfolding or_text
default_path join getenv =
    or_text (getenv "FAILURE_LOG_PATH") (join (or_text (getenv "DATA_DIR") "data") "failures.jsonl")

-- `get_failure_store` and `set_failure_store` on the module's `_store`; `build` is the store on the
-- default path.
unfoldable get_failure_store : {F : Type 0} → F → Option F → Option F × F
get_failure_store build none = (some build, build)
get_failure_store build (some store) = (some store, store)

unfoldable set_failure_store : {F : Type 0} → F → Option F → Option F
set_failure_store store current = some store

-- The answer of GET /failures: the number of events and the events, or the error of the read, which
-- leaves the route.
pub data Listing : Type 0 where
  listing : ℕ → List Fields → Listing
  server_error : Listing

abbrev pub listing_of : ReadResult → Listing
listing_of (ok events) = listing (length events) (map (λ e. to_dict e) events)
listing_of attribute_error = server_error

module _ {L : Type 0} (codec : Codec L) where
  unfoldable pub list_failures : ℤ → Option String → LogFile codec → Listing
  list_failures limit source file = listing_of (read_events codec (some limit) source file)

  -- DELETE /failures
  unfoldable pub clear_failures : LogFile codec → LogFile codec
  clear_failures file = clear_events codec file
