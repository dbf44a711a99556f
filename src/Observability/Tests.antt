-- ===== src/Observability/Tests.antt =====
-- The middlewares on small requests, and the witnesses.
use auto_sre.Prelude.{
  ℕ, ◌≡◌, refl, false, [], ◌∷◌, ◌++◌, map, suc, leb, if◌then◌else◌, All, some, none, Bool,
}
use auto_sre.Prelude.Text.{String, str_eq}
use auto_sre.Storage.Json.{str, field, end, get}
use auto_sre.Observability.Logging.{LogRecord, setdefault, payload, hidden, add_extras, format}
use auto_sre.Observability.Configure.{Root, written, configure_all, configured_lines}
use auto_sre.Observability.Asgi.{
  Headers, response_start, other, default_vars, App, request_ids, added_headers, request_context,
  security, security_headers, scope_header,
}
use auto_sre.Observability.Headers.{http_scope, Secured, bare, request_context-security}

-- An application that answers 200 and counts its requests.
abbrev hello : App ℕ
hello scope vars n = record {
  vars = vars;
  world = suc n;
  sent = response_start 200 (("content-type", "text/plain") ∷ []) ∷ other "body" ∷ [];
  failed = false;
}

abbrev traced : Headers
traced = ("x-correlation-id", "c-1") ∷ []

hello_headers :
    (request_context "r-1" (security hello) (http_scope "/docs" traced) default_vars 0).sent
    ≡ response_start 200 (
        ("content-type", "text/plain") ∷ security_headers
        ++ ("x-request-id", "r-1") ∷ ("x-correlation-id", "c-1") ∷ [])
      ∷ other "body"
      ∷ []
unfolding request_context security request_ids added_headers scope_header
hello_headers = refl

-- One that sets a header of its own under a name of the middleware.
abbrev framed : App ℕ
framed scope vars n = record {
  vars = vars;
  world = suc n;
  sent = response_start 200 (("x-frame-options", "SAMEORIGIN") ∷ []) ∷ other "body" ∷ [];
  failed = false;
}

request_context-security_example :
    let run =
      request_context "r-1" (security framed) (http_scope "/orders" traced) default_vars 0 in
    All (Secured "/orders" (request_ids "r-1" traced)) run.sent
    × (map bare run.sent ≡ response_start 200 [] ∷ other "body" ∷ [])
    × (run.vars ≡ default_vars)
    × (run.world ≡ 1)
    × (run.failed ≡ false)
request_context-security_example =
    request_context-security "r-1" "/orders" traced framed default_vars 0

-- A line about an order, with an extra of its own and one that is named like a field.
abbrev made_line : LogRecord
made_line = record {
  time = "2026-01-01 00:00:00,000";
  level = "INFO";
  logger = "api";
  message = "created";
  exc_info = none;
  attributes =
      field "name" (str "api") (field "item" (str "widget") (field "level" (str "low") end));
}

level_kept :
    get "level" (format (λ key. str_eq key "name") default_vars made_line) ≡ some (str "INFO")
unfolding format add_extras hidden setdefault payload
level_kept = refl

-- A root logger with a handler of another program.
abbrev used_root : Root
used_root = record { handlers = (λ vars line. end) ∷ []; level = 30 }

configured_lines_example :
    let of_record : String → Bool = λ key. str_eq key "name" in
    let lines =
      written 20 default_vars made_line
        (configure_all of_record (("auth", 10) ∷ ("api", 20) ∷ []) used_root) in
    let entry = format of_record default_vars made_line in
    (lines ≡ (if leb 20 20 then entry ∷ [] else []))
    × (get "msg" entry ≡ some (str "created"))
    × (get "request_id" entry ≡ some (str "-"))
    × (get "correlation_id" entry ≡ some (str "-"))
configured_lines_example =
    configured_lines (λ key. str_eq key "name") (("auth", 10) ∷ []) "api" 20 20 used_root
      default_vars made_line
