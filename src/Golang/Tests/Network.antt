-- ===== src/Golang/Tests/Network.antt =====
-- The network daemon with an interval of zero, and the witness.
use auto_sre.Prelude.{◌≡◌, refl, true, Option, none, some, [], if◌then◌else◌}
use auto_sre.Prelude.Int.{ℤ, pos}
use auto_sre.Prelude.Text.{String, str_eq}
use auto_sre.Golang.Config.{Found, not_there, loaded, str, load_yaml}
use auto_sre.Golang.Network.{
  NetFile, default_file, NetworkConfig, load_network, run_prober, panicked,
  nonpositive_interval_panics,
}

abbrev getenv : String → Option String
getenv name = if str_eq name "NETD_POLL_INTERVAL" then some "0s" else none

-- The durations of two texts, in nanoseconds.
abbrev parse_duration : String → Option ℤ
parse_duration text =
    if str_eq text "0s"
    then some (pos 0)
    else if str_eq text "5s"
    then some (pos 5_000_000_000)
    else none

abbrev no_file : String → Found String
no_file path = not_there

abbrev unmarshal : String → NetFile → Option NetFile
unmarshal text file = some file

nonpositive_interval_panics_example :
    (cfg : NetworkConfig) × (load_network getenv parse_duration no_file unmarshal ≡ loaded cfg)
    × (cfg.poll_interval ≡ pos 0)
    × (run_prober (λ (e : String). true) [] (load_network getenv parse_duration no_file unmarshal)
        ≡ panicked)
unfolding load_yaml str
nonpositive_interval_panics_example =
    nonpositive_interval_panics getenv parse_duration (λ (e : String). true) [] no_file unmarshal
      default_file "0s" (pos 0) (pos 5_000_000_000) refl refl refl refl refl refl
