-- ===== src/Storage/Source.antt =====
-- `class Source` of shared/autosre_shared/storage/failure_store.py: who reports an event.
use auto_sre.Prelude.Text.{String}

abbrev pub chaos : String
chaos = "chaos"

abbrev pub circuit_breaker : String
circuit_breaker = "circuit_breaker"

abbrev pub rate_limit : String
rate_limit = "rate_limit"

abbrev pub worker : String
worker = "worker"

abbrev pub auth : String
auth = "auth"
