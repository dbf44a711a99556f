-- ===== src/Golang/Config.antt =====
-- `LoadService` of internal/config/config.go, with the helpers on the environment.
use Prim.Native.String as Native
use auto_sre.Prelude.{ℕ, Option, none, some, List, [], ◌∷◌, ◌++◌, if◌then◌else◌}
use auto_sre.Prelude.Int.{ℤ}
use auto_sre.Prelude.Text.{String, str_eq}

-- A message of a variable that does not parse, by the variable and its text.
abbrev pub BadVariable : Type 0
BadVariable = String × String

-- `ServiceConfig`; `F` is `float64`.
pub record ServiceConfig (F : Type 0) : Type 0 where
  pub service : String
  pub listen_addr : String
  pub failure_log_path : String
  pub rate_limit_rps : F
  pub rate_limit_burst : F
  pub auth_url : String

-- How a load ends: with the error of the file, with the variables that do not parse, or with the
-- configuration.
pub data Loaded (A : Type 0) : Type 0 where
  file_failed : Loaded A
  invalid : List BadVariable → Loaded A
  loaded : A → Loaded A

-- The file that `os.ReadFile` finds under a path.
pub data Found (C : Type 0) : Type 0 where
  not_there : Found C
  unreadable : Found C
  contents : C → Found C

-- `os.Getenv(key)`
abbrev pub text_of : Option String → String
text_of none = ""
text_of (some v) = v

-- `loadYAML`; `read_file` is `os.ReadFile`, and `unmarshal` what `yaml.Unmarshal` makes of a value.
unfoldable pub load_yaml :
    {C A : Type 0} → (String → Found C) → (C → A → Option A) → String → A → Option A
load_yaml read_file unmarshal path dst =
    if str_eq path "" then some dst else elim (read_file path) [
      | not_there ↦ some dst
      | unreadable ↦ none
      | contents c ↦ unmarshal c dst
    ]

module _ (getenv : String → Option String) where
  -- `str`
  unfoldable pub str : String → String → String
  str key def = let v = text_of (getenv key) in if str_eq v "" then def else v

  -- `int` and `float`, by the function that parses: the errors so far, and the value.
  unfoldable pub parsed :
      {A : Type 0} → (String → Option A) → String → A → List BadVariable → List BadVariable × A
  parsed parse key def errs =
      let v = text_of (getenv key) in
      if str_eq v ""
      then (errs, def)
      else elim (parse v) [ none ↦ (errs ++ (key, v) ∷ [], def) | some n ↦ (errs, n) ]

  -- `atoi` and `parse_float` are those of strconv, and `show` is `%d`.
  module _ {F C : Type 0} (atoi : String → Option ℤ) (parse_float : String → Option F)
      (show : ℤ → String) (read_file : String → Found C)
      (unmarshal : C → ServiceConfig F → Option (ServiceConfig F)) where
    -- What follows the file.
    unfoldable pub from_env : ℤ → ServiceConfig F → Loaded (ServiceConfig F)
    from_env default_port cfg =
        let (errs, port) = parsed atoi "PORT" default_port [] in
        let (errs', rps) = parsed parse_float "RATE_LIMIT_RPS" cfg.rate_limit_rps errs in
        let (errs'', burst) = parsed parse_float "RATE_LIMIT_BURST" cfg.rate_limit_burst errs' in
        elim errs'' [
          | e ∷ es ↦ invalid (e ∷ es)
          | [] ↦ loaded (record {
            service = cfg.service;
            listen_addr = Native.◌++◌ ":" (show port);
            failure_log_path = str "FAILURE_LOG_PATH" cfg.failure_log_path;
            rate_limit_rps = rps;
            rate_limit_burst = burst;
            auth_url = str "AUTH_URL" cfg.auth_url;
          })
        ]

    -- `LoadService`; `lit` gives the `float64` of a whole number.
    unfoldable pub load_service : (ℕ → F) → String → ℤ → Loaded (ServiceConfig F)
    load_service lit service default_port =
        let defaults : ServiceConfig F = record {
          service = service;
          listen_addr = Native.◌++◌ ":" (show default_port);
          failure_log_path = "data/failures.jsonl";
          rate_limit_rps = lit 10;
          rate_limit_burst = lit 20;
          auth_url = "http://auth:8001";
        } in
        elim (load_yaml read_file unmarshal (text_of (getenv "CONFIG_FILE")) defaults) [
          | none ↦ file_failed
          | some cfg ↦ from_env default_port cfg
        ]
