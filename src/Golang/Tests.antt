-- ===== src/Golang/Tests.antt =====
-- The Go services on small values, and the witnesses.
mod Settings
mod Network
use auto_sre.Prelude.{
  ℕ, zero, suc, ◌≡◌, refl, Bool, true, false, not, ◌&&◌, Option, none, some, List, [], ◌∷◌, leb,
  if◌then◌else◌,
}
use auto_sre.Prelude.Int.{pos}
use auto_sre.Prelude.Text.{String, str_eq}
use auto_sre.Storage.Json.{Json, null, bool, num, str, arr, obj, field, end}
use auto_sre.Breaker.{BreakerRecord, new_record, in_memory_store, World, allow}
use auto_sre.Observability.Asgi.{Headers, Vars, scope_header, request_ids}
use auto_sre.Orders.Create.{Order, unavailable, auth_breaker, created}
use auto_sre.Orders.Create as Create
use auto_sre.Orders.Validate.{Verdict, verdict}
use auto_sre.Orders.Client.{Client, Method, post, Reply, no_response, http_client, http_answer}
use auto_sre.Orders.Client as Client
use auto_sre.Golang.Middleware.{unwritten, Handler, new}
use auto_sre.Golang.Context.{unset}
use auto_sre.Golang.Served.{final_status, new_serves}
use auto_sre.Golang.Client.{validate}
use auto_sre.Golang.Hops.{python, golang, Hop, chain_ids, chain_shares_correlation}
use auto_sre.Golang.Orders.{create_order, len, valid_order}
use auto_sre.Golang.Contract.{python_call, contract_kept}
use auto_sre.Golang.Prober.{Probe, answered, new_metrics, run}
use auto_sre.Golang.Probes.{IsConsistent, new_metrics-IsConsistent, run-IsConsistent}

-- A handler that panics after it has counted the request.
abbrev broken : Handler ℕ
broken headers ids w n = record { writer = w; world = 1; panicked = true }

-- The log is the last status that was written to it.
abbrev last_line : ℕ → Vars → ℕ → ℕ
last_line status ids n = status

abbrev traced : Headers
traced = ("x-correlation-id", "c-1") ∷ []

new_serves_example :
    let ids = request_ids "r-1" traced in
    let inner = broken traced ids unwritten 0 in
    let ran = new last_line false "r-1" "f-1" broken traced unset unwritten 0 in
    (ran.panicked ≡ false)
    × (ran.writer.status ≡ some (final_status last_line false broken inner))
    × (ran.world ≡ last_line (final_status last_line false broken inner) ids inner.world)
    × (scope_header "x-request-id" ran.writer.headers ≡ some ids.request_id)
    × (scope_header "x-correlation-id" ran.writer.headers ≡ some ids.correlation_id)
new_serves_example = new_serves last_line false broken "r-1" "f-1" traced 0 refl refl refl

-- A server that gives header names in lower case, on the two names of interest.
abbrev lower_case : String → String
lower_case name = if str_eq name "Content-Type" then "content-type" else "x-correlation-id"

abbrev go_then_python : List Hop
go_then_python =
    record { language = golang; fresh = "r-2"; fresh_chain = "f-2" }
    ∷ record { language = python; fresh = "r-3"; fresh_chain = "f-3" }
    ∷ []

chain_shares_correlation_example :
    chain_ids lower_case python go_then_python
      (record { request_id = "r-1"; correlation_id = "c-1" })
    ≡ record { request_id = "r-2"; correlation_id = "c-1" }
      ∷ record { request_id = "r-3"; correlation_id = "c-1" }
      ∷ []
chain_shares_correlation_example =
    chain_shares_correlation lower_case python go_then_python "r-1" "c-1" refl refl refl refl

-- An Auth service that takes every token but "bad" for valid, and a transport to it.
abbrev auth : String → Verdict
auth token = verdict (not (str_eq token "bad")) token

abbrev token_in : Json → String
token_in (obj (field key (str token) more)) = token
token_in (obj (field key value more)) = ""
token_in (obj end) = ""
token_in null = ""
token_in (bool b) = ""
token_in (num n) = ""
token_in (str s) = ""
token_in (arr xs) = ""

abbrev network : Method → String → Headers → Reply
network (post body) url headers = http_answer none (auth (token_in body))
network Client.get url headers = no_response

abbrev decode : Json → Option Bool
decode (obj (field key (bool valid) more)) = some valid
decode (obj (field key value more)) = none
decode (obj end) = some false
decode null = some false
decode (bool b) = none
decode (num n) = none
decode (str s) = none
decode (arr xs) = none

abbrev fresh : World BreakerRecord
fresh = record { stored = new_record; gauge = 0; open_total = 0; rejections_total = 0; events = [] }

abbrev widget : Order
widget = record { item = "widget"; quantity = 2 }

abbrev call_vars : Vars
call_vars = record { request_id = "r-1"; correlation_id = "c-1" }

contract_kept_example :
    (Create.create_order in_memory_store 1
      (python_call
        (λ w. w)
        (λ status. leb 400 status)
        network
        (http_client "http://auth:8001")
        call_vars)
      (pos 1)
      (pos 2)
      widget
      (some "Bearer bad")
      fresh).1
    ≡ (if Create.valid_order widget && not (allow in_memory_store (auth_breaker 1) (pos 1) fresh).1
        then unavailable "auth"
        else create_order
            (validate decode network "http://auth:8001" call_vars)
            false
            widget
            (some "Bearer bad"))
contract_kept_example =
    contract_kept decode (λ valid token. refl) in_memory_store 1 (λ w. w) (λ status. leb 400 status)
      network network (http_client "http://auth:8001") "http://auth:8001" call_vars call_vars
      (pos 1) (pos 2) widget (some "Bearer bad") (some "Bearer bad") fresh auth none none refl refl
      (λ _. refl) refl refl refl refl refl (λ token. refl) (λ token. refl)

-- An item of 34 characters of three bytes each: too long for the Go service only.
abbrev text_of : ℕ → String
text_of zero = ""
text_of (suc n) = String.◌∷◌ "字" (text_of n)

abbrev wide : Order
wide = record { item = text_of 34; quantity = 1 }

wide_item : (Create.valid_order wide ≡ true) × (valid_order wide ≡ false)
unfolding Create.valid_order valid_order len
wide_item = (refl, refl)

-- A target that answers with 503, probed once.
abbrev failing : Probe {E = String} (λ e. true)
failing = record {
  target = record { name = "api"; host = "api"; port = pos 8000; http = "http://api:8000/health" };
  dns = (1, none);
  tcp = (2, some "connection refused");
  http = (3, answered 503);
}

run-IsConsistent_example : IsConsistent (run (λ e. true) ((failing ∷ []) ∷ []) new_metrics)
run-IsConsistent_example =
    run-IsConsistent (λ e. true) ((failing ∷ []) ∷ []) new_metrics new_metrics-IsConsistent
