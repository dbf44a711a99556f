-- ===== src/Service/Startup.antt =====
-- How a service comes up: what the main.py of the worker, the Auth service and the API reads of the
-- environment as it is imported, the check of `create_service_app` (shared/autosre_shared/app.py),
-- the port for uvicorn, and the limiter that RateLimitMiddleware makes as the middlewares are put
-- together, after the import and before any request is answered.
use auto_sre.Prelude.{Bool, Option, none, some, List, [], ◌∷◌, if◌then◌else◌}
use auto_sre.Prelude.Text.{String}
use auto_sre.Service.Env.{Caster, int, float, Problem, validate_env}

-- The services, and what their main.py has: the variables that it reads as floats, with their
-- defaults, and the default of PORT.
pub data Program : Type 0 where
  api : Program
  auth : Program
  worker : Program

unfoldable pub settings : Program → List (String × String)
settings api = []
settings auth = ("AUTH_DEP_LATENCY", "0.08") ∷ []
settings worker = ("WORKER_INTERVAL", "5") ∷ ("WORKER_JOB_SECONDS", "0.2") ∷ []

unfoldable pub default_port : Program → String
default_port api = "8000"
default_port auth = "8001"
default_port worker = "8002"

-- How a start ends: with the `ValueError` of `float` on a variable, with the `RuntimeError` of
-- `validate_env`, with the `ValueError` of `int` on PORT, or with a service that runs.
pub data Start : Type 0 where
  bad_setting : String → Start
  refused : List Problem → Start
  bad_port : Start
  running : Start

-- `os.getenv(name, default)`, from `os.getenv(name)`.
abbrev pub or_default : String → Option String → String
or_default default none = default
or_default default (some raw) = raw

-- `getenv` is `os.getenv`, and `casts` whether a caster takes a text without a `ValueError`.
module _ (getenv : String → Option String) (casts : Caster → String → Bool) where
  abbrev pub setting_of : String → String → String
  setting_of name default = or_default default (getenv name)

  -- The assignments at the top of a main.py; the name is that of the first that fails.
  unfoldable pub import_settings : List (String × String) → Option String
  import_settings [] = none
  import_settings ((name, default) ∷ rest) =
      let later = import_settings rest in
      if casts float (setting_of name default) then later else some name

  -- `create_service_app`, and then `uvicorn.run`.
  unfoldable pub after_import : String → List Problem → Start
  after_import port (p ∷ problems) = refused (p ∷ problems)
  after_import port [] = if casts int (setting_of "PORT" port) then running else bad_port

  unfoldable pub start : Program → Start
  start program = elim (import_settings (settings program)) [
    | some name ↦ bad_setting name
    | none ↦ after_import (default_port program) (validate_env getenv casts [])
  ]

  -- The texts of the rate and the burst in `get_limiter`, unless `float` raises a `ValueError`.
  unfoldable pub limiter_texts : Option (String × String)
  limiter_texts =
      let rps = setting_of "RATE_LIMIT_RPS" "10" in
      let burst = setting_of "RATE_LIMIT_BURST" "20" in
      if casts float rps then if casts float burst then some (rps, burst) else none else none
