-- ===== src/Golang/Settings.antt =====
-- What `LoadService` (internal/config/config.go) makes of an environment of which a Python service
-- makes its limiter (shared/autosre_shared/rate_limiter.py).
use auto_sre.Prelude.{
  ℕ, ◌≡◌, refl, sym, ap, ◌∙◌, Bool, true, false, Option, none, some, List, [], if◌then◌else◌,
  Option-cases, Bool-cases, inl, inr, arith,
}
use Prim.Native.String as Native
use mathlib.Core.Bool.{false≢true}
use mathlib.Core.Option.{some-injective}
use auto_sre.Prelude.Int.{ℤ}
use auto_sre.Prelude.Text.{String, str_eq, eq_iff}
use auto_sre.Service.Env.{Caster, float}
use auto_sre.Service.Startup.{setting_of, limiter_texts}
use auto_sre.Golang.Config.{
  BadVariable, ServiceConfig, loaded, Found, text_of, str, parsed, load_yaml, from_env,
  load_service,
}

both_read :
    (c d : Bool) (r b rps burst : String)
    → let texts : Option (String × String) = some (r, b) in
      (if c then if d then texts else none else none) ≡ some (rps, burst)
      → (c ≡ true) × (d ≡ true) × (rps ≡ r) × (burst ≡ b)
both_read false d r b rps burst e = grind arith
both_read true false r b rps burst e = grind arith
both_read true true r b rps burst e =
    let same = some-injective (r, b) (rps, burst) e in
    (refl, refl, sym (ap (λ p. p.0) same), sym (ap (λ p. p.1) same))

module _ (getenv : String → Option String) (casts : Caster → String → Bool) where
  -- A variable that is read without an error, and its value.
  abbrev Reads : {A : Type 0} → (String → Option A) → String → A → A → Type 0
  Reads parse key def v = (errs : List BadVariable) → parsed getenv parse key def errs ≡ (errs, v)

  read_set :
      (key default raw : String) → getenv key ≡ some raw → setting_of getenv casts key default ≡ raw
  read_set key default raw set = rw set refl

  -- A variable whose text, or else the default text, Python takes for a number.
  setting_read :
      {A : Type 0} (parse : String → Option A) (caster : Caster) (key default : String) (def v : A)
      → parse default ≡ some def
      → casts caster "" ≡ false
      → casts caster (setting_of getenv casts key default) ≡ true
      → parse (setting_of getenv casts key default) ≡ some v
      → Reads parse key def v
  unfolding parsed
  setting_read parse caster key default def v same empty taken good =
      elim (Option-cases (getenv key)) [
        | inl unset ↦
            let at_default : parse (setting_of getenv casts key default) ≡ parse default =
              rw unset refl in
            let def_v : def ≡ v = some-injective def v (sym same ∙ sym at_default ∙ good) in
            λ errs. rw (unset, def_v) refl
        | inr (raw, set) ↦ elim (Bool-cases (str_eq raw "")) [
          | inl blank ↦
              let same_text : casts caster raw ≡ casts caster "" =
                ap (casts caster) ((eq_iff raw "").0 blank) in
              let held : casts caster raw ≡ true =
                sym (ap (casts caster) (read_set key default raw set)) ∙ taken in
              absurd (false≢true (sym empty ∙ sym same_text ∙ held))
          | inr full ↦
              let read : parse raw ≡ some v =
                sym (ap parse (read_set key default raw set)) ∙ good in
              λ errs. rw (set, full, read) refl
        ]
      ]

  -- The texts of the limiter, where it can be made.
  limiter_texts_read :
      (rps burst : String)
      → limiter_texts getenv casts ≡ some (rps, burst)
      → (rps ≡ setting_of getenv casts "RATE_LIMIT_RPS" "10")
        × (burst ≡ setting_of getenv casts "RATE_LIMIT_BURST" "20")
        × (casts float rps ≡ true)
        × (casts float burst ≡ true)
  unfolding limiter_texts
  limiter_texts_read rps burst e =
      let r = setting_of getenv casts "RATE_LIMIT_RPS" "10" in
      let b = setting_of getenv casts "RATE_LIMIT_BURST" "20" in
      let (good, fine, x, y) = both_read (casts float r) (casts float b) r b rps burst e in
      (x, y, ap (casts float) x ∙ good, ap (casts float) y ∙ fine)

  module _ {F C : Type 0} (atoi : String → Option ℤ) (parse_float : String → Option F)
      (show : ℤ → String) (read_file : String → Found C)
      (unmarshal : C → ServiceConfig F → Option (ServiceConfig F)) (lit : ℕ → F) where
    -- The configuration before the file and the environment are read.
    abbrev defaults : String → ℤ → ServiceConfig F
    defaults service default_port = record {
      service = service;
      listen_addr = Native.◌++◌ ":" (show default_port);
      failure_log_path = "data/failures.jsonl";
      rate_limit_rps = lit 10;
      rate_limit_burst = lit 20;
      auth_url = "http://auth:8001";
    }

    load_service_unfiled :
        (service : String) (default_port : ℤ)
        → getenv "CONFIG_FILE" ≡ none
        → load_service getenv atoi parse_float show read_file unmarshal lit service default_port
          ≡ from_env getenv atoi parse_float show read_file unmarshal default_port
              (defaults service default_port)
    unfolding load_service load_yaml
    load_service_unfiled service default_port no_file = rw (load_service, no_file) refl

    from_env_read :
        (default_port port : ℤ) (rate size : F) (cfg : ServiceConfig F)
        → Reads atoi "PORT" default_port port
        → Reads parse_float "RATE_LIMIT_RPS" cfg.rate_limit_rps rate
        → Reads parse_float "RATE_LIMIT_BURST" cfg.rate_limit_burst size
        → from_env getenv atoi parse_float show read_file unmarshal default_port cfg
          ≡ loaded (record {
            service = cfg.service;
            listen_addr = Native.◌++◌ ":" (show port);
            failure_log_path = str getenv "FAILURE_LOG_PATH" cfg.failure_log_path;
            rate_limit_rps = rate;
            rate_limit_burst = size;
            auth_url = str getenv "AUTH_URL" cfg.auth_url;
          })
    unfolding from_env
    from_env_read default_port port rate size cfg p r b =
        rw (from_env, p [], r [], b [], p [], r [], b []) refl

    port_read :
        (default_port port : ℤ)
        → atoi (text_of (getenv "PORT")) ≡ some port
        → str_eq (text_of (getenv "PORT")) "" ≡ false
        → Reads atoi "PORT" default_port port
    unfolding parsed
    port_read default_port port good full errs = rw (full, good) refl

    -- In an environment without a configuration file, with a port that `strconv.Atoi` takes, and of
    -- which a Python service makes its limiter from the texts `rps` and `burst`, be they set or its own
    -- defaults, the Go service loads its configuration, with the numbers that `strconv.ParseFloat` makes
    -- of these two texts, provided that it takes them. The literals 10 and 20 of Go are the numbers of
    -- the texts "10" and "20", and Python's `float` takes no empty text.
    pub checked_config_loads :
        (service rps burst : String) (default_port port : ℤ) (rate size : F)
        → limiter_texts getenv casts ≡ some (rps, burst)
        → getenv "CONFIG_FILE" ≡ none
        → atoi (text_of (getenv "PORT")) ≡ some port
        → str_eq (text_of (getenv "PORT")) "" ≡ false
        → parse_float rps ≡ some rate
        → parse_float burst ≡ some size
        → parse_float "10" ≡ some (lit 10)
        → parse_float "20" ≡ some (lit 20)
        → casts float "" ≡ false
        → load_service getenv atoi parse_float show read_file unmarshal lit service default_port
          ≡ loaded (record {
            service = service;
            listen_addr = Native.◌++◌ ":" (show port);
            failure_log_path = str getenv "FAILURE_LOG_PATH" "data/failures.jsonl";
            rate_limit_rps = rate;
            rate_limit_burst = size;
            auth_url = str getenv "AUTH_URL" "http://auth:8001";
          })
    checked_config_loads service rps burst default_port port rate size texts no_file good full
          rate_good size_good tens twenties empty =
        let (rps_text, burst_text, rps_taken, burst_taken) = limiter_texts_read rps burst texts in
        load_service_unfiled service default_port no_file
        ∙ from_env_read default_port port rate size (defaults service default_port)
            (port_read default_port port good full)
            (setting_read parse_float float "RATE_LIMIT_RPS" "10" (lit 10) rate tens empty
              (ap (casts float) (sym rps_text) ∙ rps_taken)
              (ap parse_float (sym rps_text) ∙ rate_good))
            (setting_read parse_float float "RATE_LIMIT_BURST" "20" (lit 20) size twenties empty
              (ap (casts float) (sym burst_text) ∙ burst_taken)
              (ap parse_float (sym burst_text) ∙ size_good))
