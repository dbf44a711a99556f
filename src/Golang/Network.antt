-- ===== src/Golang/Network.antt =====
-- `LoadNetwork` of internal/config/config.go, and the start of the prober with what it loads
-- (`Run` of internal/prober/prober.go).
use auto_sre.Prelude.{
  ◌≡◌, refl, ap, ◌∙◌, Bool, false, Option, none, some, List, [], ◌∷◌, ◌++◌, if◌then◌else◌,
}
use auto_sre.Prelude.Int.{ℤ, pos, ltb_ℤ}
use auto_sre.Prelude.Text.{String, str_eq}
use auto_sre.Golang.Config.{
  BadVariable, Loaded, file_failed, invalid, loaded, Found, str, load_yaml,
}
use auto_sre.Golang.Prober.{Target, Metrics, new_metrics, Probe, run}

-- `NetworkConfig`; durations are in nanoseconds.
pub record NetworkConfig : Type 0 where
  pub listen_addr : String
  pub poll_interval : ℤ
  pub timeout : ℤ
  pub targets : List Target

-- `netFile`
pub record NetFile : Type 0 where
  pub listen_addr : String
  pub poll_interval : String
  pub timeout : String
  pub targets : List Target

abbrev pub default_file : NetFile
default_file = record { listen_addr = ":2112"; poll_interval = "15s"; timeout = "5s"; targets = [] }

-- How the daemon goes: it does not start, the prober panics, or it has counted its rounds.
pub data Daemon : Type 0 where
  refused : Daemon
  panicked : Daemon
  probed : Metrics → Daemon

-- `Run`, on what is loaded: `time.NewTicker` panics on an interval that is not positive.
pub run_prober :
    {E : Type 0} (is_timeout : E → Bool)
    → List (List (Probe is_timeout))
    → Loaded NetworkConfig
    → Daemon
run_prober is_timeout ticks file_failed = refused
run_prober is_timeout ticks (invalid errs) = refused
run_prober is_timeout ticks (loaded cfg) =
    if ltb_ℤ (pos 0) cfg.poll_interval then probed (run is_timeout ticks new_metrics) else panicked

-- `parse_duration` is `time.ParseDuration`.
module _ (getenv : String → Option String) (parse_duration : String → Option ℤ) where
  -- `duration`: the errors so far, and the value.
  pub duration : String → String → List BadVariable → List BadVariable × ℤ
  duration key def errs =
      let raw = str getenv key def in
      elim (parse_duration raw) [ none ↦ (errs ++ (key, raw) ∷ [], pos 0) | some d ↦ (errs, d) ]

  -- What follows the file.
  unfoldable network_of : NetFile → Loaded NetworkConfig
  network_of file =
      let (errs, interval) = duration "NETD_POLL_INTERVAL" file.poll_interval [] in
      let (errs', timeout) = duration "NETD_TIMEOUT" file.timeout errs in
      elim errs' [
        | e ∷ es ↦ invalid (e ∷ es)
        | [] ↦ loaded (record {
          listen_addr = str getenv "NETD_LISTEN_ADDR" file.listen_addr;
          poll_interval = interval;
          timeout = timeout;
          targets = file.targets;
        })
      ]

  -- `LoadNetwork`
  pub load_network :
      {C : Type 0} → (String → Found C) → (C → NetFile → Option NetFile) → Loaded NetworkConfig
  load_network read_file unmarshal =
      elim (load_yaml read_file unmarshal (str getenv "NETD_CONFIG" "config.yaml") default_file) [
        | none ↦ file_failed
        | some file ↦ network_of file
      ]

  duration_read :
      (key def : String) (d : ℤ)
      → parse_duration (str getenv key def) ≡ some d
      → (errs : List BadVariable) → duration key def errs ≡ (errs, d)
  unfolding duration
  duration_read key def d good errs = rw (duration, good) refl

  str_set :
      (key def raw : String)
      → getenv key ≡ some raw
      → str_eq raw "" ≡ false
      → str getenv key def ≡ raw
  unfolding str
  str_set key def raw set full = rw (str, set, full) refl

  -- The environment sets an interval, and the rest is well-formed: the configuration has it.
  network_of_set :
      (file : NetFile) (raw : String) (d t : ℤ)
      → getenv "NETD_POLL_INTERVAL" ≡ some raw
      → str_eq raw "" ≡ false
      → parse_duration raw ≡ some d
      → parse_duration (str getenv "NETD_TIMEOUT" file.timeout) ≡ some t
      → network_of file
        ≡ loaded (record {
          listen_addr = str getenv "NETD_LISTEN_ADDR" file.listen_addr;
          poll_interval = d;
          timeout = t;
          targets = file.targets;
        })
  unfolding network_of
  network_of_set file raw d t set full good timely =
      let text = str_set "NETD_POLL_INTERVAL" file.poll_interval raw set full in
      let i =
        duration_read "NETD_POLL_INTERVAL" file.poll_interval d (ap parse_duration text ∙ good)
          [] in
      let o = duration_read "NETD_TIMEOUT" file.timeout t timely [] in
      rw (network_of, i, o, i, o) refl

  -- An interval that is zero or negative, set in the environment, is loaded without an error where the
  -- rest of the configuration is well-formed, and the prober then panics before its first check.
  pub nonpositive_interval_panics :
      {C E : Type 0} (is_timeout : E → Bool) (ticks : List (List (Probe is_timeout)))
      (read_file : String → Found C) (unmarshal : C → NetFile → Option NetFile) (file : NetFile)
      (raw : String) (d t : ℤ)
      → load_yaml read_file unmarshal (str getenv "NETD_CONFIG" "config.yaml") default_file
        ≡ some file
      → getenv "NETD_POLL_INTERVAL" ≡ some raw
      → str_eq raw "" ≡ false
      → parse_duration raw ≡ some d
      → ltb_ℤ (pos 0) d ≡ false
      → parse_duration (str getenv "NETD_TIMEOUT" file.timeout) ≡ some t
      → (cfg : NetworkConfig) × (load_network read_file unmarshal ≡ loaded cfg)
        × (cfg.poll_interval ≡ d)
        × (run_prober is_timeout ticks (load_network read_file unmarshal) ≡ panicked)
  unfolding load_network run_prober
  nonpositive_interval_panics is_timeout ticks read_file unmarshal file raw d t read set full good
        low timely =
      let same = network_of_set file raw d t set full good timely in
      let whole : load_network read_file unmarshal ≡ network_of file =
        rw (load_network, read) refl in
      (_, whole ∙ same, refl, ap (run_prober is_timeout ticks) (whole ∙ same) ∙ rw low refl)
