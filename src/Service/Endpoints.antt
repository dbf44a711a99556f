-- ===== src/Service/Endpoints.antt =====
-- The system endpoints of shared/autosre_shared/observability/endpoints.py.
use auto_sre.Prelude.{ℕ, Bool, true, false, not, Option, none, some, if◌then◌else◌, ltb}
use auto_sre.Prelude.Int.{ℤ, pos, negsuc}
use auto_sre.Prelude.Text.{String, str_eq}
use auto_sre.Storage.Json.{Json, null, bool, num, str, arr, obj, Fields, end, field, nil, cons, get}
use auto_sre.Chaos.State.{ChaosState, Snapshot, snapshot}

abbrev is_nonzero : ℤ → Bool
is_nonzero (pos n) = ltb 0 n
is_nonzero (negsuc n) = true

-- `bool(value)`; a number is true unless it is 0.
unfoldable pub truthy : Json → Bool
truthy null = false
truthy (bool b) = b
truthy (num n) = is_nonzero n
truthy (str s) = not (str_eq s "")
truthy (arr nil) = false
truthy (arr (cons x xs)) = true
truthy (obj end) = false
truthy (obj (field k v rest)) = true

-- The answer of GET /health, always with status 200.
pub record Health : Type 0 where
  pub status : String
  pub service : String
  pub chaos : Snapshot

abbrev pub health : String → ChaosState → Health
health service s = record { status = "Healthy"; service = service; chaos = snapshot s }

-- The answer of GET /ready; `checks` is left out of the payload when it is empty.
pub record Ready : Type 0 where
  pub status_code : ℕ
  pub status : String
  pub ready : Bool
  pub service : String
  pub chaos : Snapshot
  pub checks : Fields

-- `result.get("ready", True)`, as a condition.
abbrev ready_of : Option Json → Bool
ready_of none = true
ready_of (some value) = truthy value

-- What a readiness check says: the details to show, and whether the service is ready.
abbrev judge : Json → Fields × Bool
judge (obj details) = (details, ready_of (get "ready" details))
judge null = (end, false)
judge (bool b) = (end, b)
judge (num n) = (end, is_nonzero n)
judge (str s) = (end, not (str_eq s ""))
judge (arr nil) = (end, false)
judge (arr (cons x xs)) = (end, true)

-- `ready`; `readiness_check` is what the check returns when it is called, where there is one.
unfoldable pub ready : String → ChaosState → Option Json → Ready
ready service s readiness_check =
    let (checks, ok) =
      if not s.error_enabled
      then elim readiness_check [ none ↦ (end, true) | some result ↦ judge result ]
      else (end, false) in
    record {
      status_code = if ok then 200 else 503;
      status = if ok then "ready" else "degraded";
      ready = ok;
      service = service;
      chaos = snapshot s;
      checks = checks;
    }
