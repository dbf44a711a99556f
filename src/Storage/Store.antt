-- ===== src/Storage/Store.antt =====
-- The interface `FailureStore` of shared/autosre_shared/storage/failure_store.py, which hides the
-- backend from the components that report events and from the routes.
use auto_sre.Prelude.{Option, some, List, [], ◌∷◌, ◌++◌, if◌then◌else◌}
use auto_sre.Prelude.Int.{ℤ}
use auto_sre.Prelude.Text.{String}
use auto_sre.Storage.Event.{FailureEvent, stamped}
use auto_sre.Storage.FileStore.{ReadResult}
use auto_sre.Storage.Routes.{Listing, listing_of}
use auto_sre.Storage.Recording.{Report}

-- The three methods.
pub record FailureStore (S : Type 0) : Type 0 where
  pub write_event : FailureEvent → S → S
  pub read_events : Option ℤ → Option String → S → ReadResult
  pub clear_events : S → S

-- What happens to the log: a component reports an event, or DELETE /failures comes in.
pub data Use : Type 0 where
  reported : Report → Use
  cleared : Use

-- The log as a list.
abbrev pub kept_after : Use → List FailureEvent → List FailureEvent
kept_after (reported r) es = if r.writable then es ++ stamped r.emitted r.time ∷ [] else es
kept_after cleared es = []

abbrev pub kept_through : List Use → List FailureEvent → List FailureEvent
kept_through [] es = es
kept_through (u ∷ uses) es = kept_through uses (kept_after u es)

module _ {S : Type 0} (st : FailureStore S) where
  -- `record_event` on any store, and the route DELETE /failures.
  unfoldable pub use_store : Use → S → S
  use_store (reported r) s = if r.writable then st.write_event (stamped r.emitted r.time) s else s
  use_store cleared s = st.clear_events s

  abbrev pub use_all : List Use → S → S
  use_all [] s = s
  use_all (u ∷ uses) s = use_all uses (use_store u s)

  -- GET /failures
  unfoldable pub list_store : ℤ → Option String → S → Listing
  list_store limit source s = listing_of (st.read_events (some limit) source s)
