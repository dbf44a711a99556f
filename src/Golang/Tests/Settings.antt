-- ===== src/Golang/Tests/Settings.antt =====
-- A Go service in an environment that sets the rate, and the witness of its configuration.
use auto_sre.Prelude.{ℕ, ◌≡◌, refl, Bool, Option, none, some, ◌||◌, if◌then◌else◌}
use auto_sre.Prelude.Int.{ℤ, pos}
use auto_sre.Prelude.Text.{String, str_eq}
use auto_sre.Service.Env.{Caster, int, float}
use auto_sre.Service.Startup.{limiter_texts}
use auto_sre.Golang.Config.{ServiceConfig, loaded, Found, not_there, load_service, str}
use auto_sre.Golang.Settings.{checked_config_loads}

abbrev getenv : String → Option String
getenv name =
    if str_eq name "RATE_LIMIT_RPS"
    then some "15"
    else if str_eq name "PORT"
    then some "8000"
    else none

-- Rates are whole numbers here, and the texts of three of them are known.
abbrev parse_float : String → Option ℕ
parse_float text =
    if str_eq text "10"
    then some 10
    else if str_eq text "15"
    then some 15
    else if str_eq text "20"
    then some 20
    else none

abbrev atoi : String → Option ℤ
atoi text = if str_eq text "8000" then some (pos 8000) else none

abbrev accepts : Caster → String → Bool
accepts int text = str_eq text "8000"
accepts float text = str_eq text "15" || str_eq text "20"

abbrev show : ℤ → String
show n = "8000"

abbrev read_file : String → Found String
read_file path = not_there

abbrev unmarshal : String → ServiceConfig ℕ → Option (ServiceConfig ℕ)
unmarshal text cfg = some cfg

checked_config_loads_example :
    load_service getenv atoi parse_float show read_file unmarshal (λ n. n) "api" (pos 8080)
    ≡ loaded (record {
      service = "api";
      listen_addr = ":8000";
      failure_log_path = "data/failures.jsonl";
      rate_limit_rps = 15;
      rate_limit_burst = 20;
      auth_url = "http://auth:8001";
    })
unfolding limiter_texts str
checked_config_loads_example =
    checked_config_loads getenv accepts atoi parse_float show read_file unmarshal (λ n. n) "api"
      "15" "20" (pos 8080) (pos 8000) 15 20 refl refl refl refl refl refl refl refl refl
