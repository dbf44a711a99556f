-- ===== src/Observability/Configure.antt =====
-- `configure_logging` and `get_logger` of shared/autosre_shared/logging.py, with what the library
-- `logging` does of a record: each handler of the root logger writes it, if the level is high enough.
use Prim.Native.String as Native
use auto_sre.Prelude.{ℕ, ◌≡◌, refl, Bool, List, [], ◌∷◌, ◌++◌, map, leb, if◌then◌else◌, some}
use auto_sre.Prelude.Text.{String}
use auto_sre.Storage.Json.{str, Fields, get}
use auto_sre.Observability.Asgi.{Vars}
use auto_sre.Observability.Logging.{LogRecord, payload, format, get-format}

-- How a handler writes a record that is logged in a context.
abbrev pub Handler : Type 0
Handler = Vars → LogRecord → Fields

-- The root logger; other loggers pass their records on to it.
pub record Root : Type 0 where
  pub handlers : List Handler
  pub level : ℕ

-- `get_logger` and `logging.getLogger(name)`: a logger by its name.
abbrev get_logger : String → String
get_logger name = name

-- What the handlers write of a record of some level.
pub written : ℕ → Vars → LogRecord → Root → List Fields
written level vars line root =
    if leb root.level level then map (λ h. h vars line) root.handlers else []

-- `of_record` is whether a name is an attribute of every `LogRecord`.
module _ (of_record : String → Bool) where
  -- `configure_logging(service, level)`: the root logger, and the service's own.
  unfoldable configure_logging : String → ℕ → Root → Root × String
  configure_logging service level root = (
    record root { handlers = format of_record ∷ []; level = level },
    get_logger (Native.◌++◌ "autosre." service),
  )

  pub configure_all : List (String × ℕ) → Root → Root
  configure_all [] root = root
  configure_all ((service, level) ∷ calls) root =
      configure_all calls (configure_logging service level root).0

  configure_all-last :
      (calls : List (String × ℕ)) (service : String) (level : ℕ) (root : Root)
      → configure_all (calls ++ (service, level) ∷ []) root
        ≡ record { handlers = format of_record ∷ []; level = level }
  unfolding configure_all configure_logging
  configure_all-last [] service level root = refl
  configure_all-last ((s, l) ∷ calls) service level root =
      configure_all-last calls service level (configure_logging s l root).0

  -- However often logging was configured before, and whatever handlers there were: a record is written
  -- once if its level is at least that of the last configuration, and not at all else; and what is
  -- written has the message and the ids of the context that it was logged in, whatever extras the
  -- record has.
  pub configured_lines :
      (calls : List (String × ℕ)) (service : String) (least level : ℕ) (root : Root) (vars : Vars)
      (line : LogRecord)
      → let lines = written level vars line (configure_all (calls ++ (service, least) ∷ []) root) in
        let entry = format of_record vars line in
        (lines ≡ (if leb least level then entry ∷ [] else []))
        × (get "msg" entry ≡ some (str line.message))
        × (get "request_id" entry ≡ some (str vars.request_id))
        × (get "correlation_id" entry ≡ some (str vars.correlation_id))
  unfolding written payload
  configured_lines calls service least level root vars line =
      rw (configure_all-last calls service least root) (
        refl,
        get-format of_record vars line "msg",
        get-format of_record vars line "request_id",
        get-format of_record vars line "correlation_id",
      )
