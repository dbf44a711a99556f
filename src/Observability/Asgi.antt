-- ===== src/Observability/Asgi.antt =====
-- The two pure ASGI middlewares of shared/autosre_shared/observability/middleware.py, and the
-- context of shared/autosre_shared/context.py. Header names and values are texts here; the source
-- has them as bytes in latin-1, names in lower case.
use auto_sre.Prelude.{
  Bool, not, ◌&&◌, Option, none, some, List, [], ◌∷◌, ◌++◌, ℕ, map, if◌then◌else◌,
}
use auto_sre.Prelude.Text.{String, str_eq, starts_with_any}

abbrev pub Headers : Type 0
Headers = List (String × String)

pub record Scope : Type 0 where
  pub type : String
  pub path : Option String
  pub headers : Headers

-- A message that is sent: the start of a response, or any other.
pub data Message : Type 0 where
  response_start : ℕ → Headers → Message
  other : String → Message

-- `request_id_var` and `correlation_id_var`; both are "-" by default.
pub record Vars : Type 0 where
  pub request_id : String
  pub correlation_id : String

abbrev pub default_vars : Vars
default_vars = record { request_id = "-"; correlation_id = "-" }

-- An application run on one scope: the context, the state and the messages it sends; it may leave
-- an exception.
pub record Run (W : Type 0) : Type 0 where
  pub vars : Vars
  pub world : W
  pub sent : List Message
  pub failed : Bool

abbrev pub App : Type 0 → Type 0
App W = Scope → Vars → W → Run W

-- `_scope_header`
unfoldable pub scope_header : String → Headers → Option String
scope_header name [] = none
scope_header name ((key, value) ∷ headers) =
    if str_eq key name then some value else scope_header name headers

-- `value or default`: a missing header and an empty one are alike.
abbrev pub or_else : Option String → String → String
or_else none default = default
or_else (some value) default = if str_eq value "" then default else value

abbrev pub extend : Headers → Message → Message
extend more (response_start status headers) = response_start status (headers ++ more)
extend more (other kind) = other kind

-- The ids of a request; `fresh` is what `new_id()` gives.
unfoldable pub request_ids : String → Headers → Vars
request_ids fresh headers =
    let rid = or_else (scope_header "x-request-id" headers) fresh in
    record {
      request_id = rid;
      correlation_id = or_else (scope_header "x-correlation-id" headers) rid;
    }

abbrev pub id_headers : Vars → Headers
id_headers ids = ("x-request-id", ids.request_id) ∷ ("x-correlation-id", ids.correlation_id) ∷ []

abbrev pub security_headers : Headers
security_headers =
    ("x-content-type-options", "nosniff")
    ∷ ("x-frame-options", "DENY")
    ∷ ("referrer-policy", "no-referrer")
    ∷ ("permissions-policy", "geolocation=(), microphone=(), camera=()")
    ∷ ("strict-transport-security", "max-age=31536000; includeSubDomains")
    ∷ []

abbrev pub csp : String × String
csp = ("content-security-policy", "default-src 'none'; frame-ancestors 'none'")

abbrev pub docs_paths : List String
docs_paths = "/docs" ∷ "/redoc" ∷ "/openapi.json" ∷ []

path_or_empty : Option String → String
path_or_empty none = ""
path_or_empty (some path) = path

-- What `SecurityHeadersMiddleware` adds for a path.
unfoldable pub added_headers : String → Headers
added_headers path =
    if not (starts_with_any path docs_paths) then security_headers ++ csp ∷ [] else security_headers

module _ {W : Type 0} where
  -- `RequestContextMiddleware.__call__`. The context is reset to what it was, also after an
  -- exception.
  unfoldable pub request_context : String → App W → App W
  request_context fresh app scope vars w =
      if not (str_eq scope.type "http")
      then app scope vars w
      else (let ids = request_ids fresh scope.headers in
          let run = app scope ids w in
          record {
            vars = vars;
            world = run.world;
            sent = map (extend (id_headers ids)) run.sent;
            failed = run.failed;
          })

  -- `SecurityHeadersMiddleware.__call__`
  unfoldable pub security : App W → App W
  unfolding path_or_empty
  security app scope vars w =
      if not (str_eq scope.type "http")
      then app scope vars w
      else (let run = app scope vars w in
          record {
            vars = run.vars;
            world = run.world;
            sent = map (extend (added_headers (path_or_empty scope.path))) run.sent;
            failed = run.failed;
          })

-- `propagation_headers`
unfoldable pub propagation_headers : Vars → Headers
propagation_headers vars =
    if not (str_eq vars.correlation_id "") && not (str_eq vars.correlation_id "-")
    then ("X-Correlation-ID", vars.correlation_id) ∷ []
    else []
