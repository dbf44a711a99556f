-- ===== src/Validate/Script.antt =====
-- The script as a whole.
use auto_sre.Prelude.{Bool, Option, none, some, List, [], ◌∷◌}
use auto_sre.Prelude.Text.{String}
use auto_sre.Storage.Json.{Json}
use auto_sre.Validate.Values.{Problem, Check, also}
use auto_sre.Validate.Dashboards.{check_datasource, check_provider, check_dashboards}
use auto_sre.Validate.Rules.{check_rules}

-- The parsed files: the datasources, the providers, the dashboards by name (`none` for a file that
-- is no JSON), and the rule files.
pub record Files : Type 0 where
  pub datasources : Json
  pub providers : Json
  pub dashboards : List (String × Option Json)
  pub rules : List Json

-- How the script ends: "observability validation OK", exit 1 with messages, or with an exception.
pub data Exit : Type 0 where
  validation_ok : Exit
  validation_failed : List Problem → Exit
  crashed : Exit

abbrev pub exit_of : Check → Exit
exit_of none = crashed
exit_of (some []) = validation_ok
exit_of (some (p ∷ ps)) = validation_failed (p ∷ ps)

-- `same` is `==` on values that have a hash.
unfoldable pub check_all : (Json → Json → Bool) → Files → Check
check_all same files = also (check_datasource files.datasources) (
    also (check_provider files.providers)
      (also (check_dashboards same files.dashboards) (check_rules files.rules)))

unfoldable pub script : (Json → Json → Bool) → Files → Exit
script same files = exit_of (check_all same files)
