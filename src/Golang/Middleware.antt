-- ===== src/Golang/Middleware.antt =====
-- The middlewares of internal/middleware/middleware.go, in the order that internal/router/router.go
-- gives them. Header names are in lower case here; `http.Header` writes them in one form too.
use auto_sre.Prelude.{ℕ, Option, none, some, List, [], ◌∷◌, ◌++◌, Bool, true, false, if◌then◌else◌}
use auto_sre.Prelude.Text.{String, str_eq}
use auto_sre.Observability.Asgi.{Headers, Vars, scope_header}
use auto_sre.Orders.Client.{set_header, merged}

-- What is written to an `http.ResponseWriter`, less the body: the headers set so far, and the status
-- of the first `WriteHeader`.
pub record Writer : Type 0 where
  pub headers : Headers
  pub status : Option ℕ

abbrev pub unwritten : Writer
unwritten = record { headers = []; status = none }

-- `w.Header().Set(name, value)`
abbrev pub set : String → String → Writer → Writer
set name value w = record w { headers = set_header name value w.headers }

-- `w.WriteHeader(code)`; a later call has no effect.
abbrev pub first_status : ℕ → Option ℕ → Option ℕ
first_status code none = some code
first_status code (some written) = some written

abbrev write_header : ℕ → Writer → Writer
write_header code w = record w { status = first_status code w.status }

-- The status of a response whose handler returned: 200 where none was written.
abbrev pub status_or_ok : Option ℕ → ℕ
status_or_ok none = 200
status_or_ok (some code) = code

-- How a handler ends: what it wrote, its state, and whether it panics. It is given the headers of the
-- request and the ids of the request's context, where "" is an id that is not there.
pub record Ran (W : Type 0) : Type 0 where
  pub writer : Writer
  pub world : W
  pub panicked : Bool

abbrev pub Handler : Type 0 → Type 0
Handler W = Headers → Vars → Writer → W → Ran W

abbrev pub Middleware : Type 0 → Type 0
Middleware W = Handler W → Handler W

-- `r.Header.Get(name)`
abbrev pub get_header : String → Headers → String
get_header name headers = elim (scope_header name headers) [ none ↦ "" | some value ↦ value ]

abbrev pub or_id : String → String → String
or_id id other = if str_eq id "" then other else id

-- The text that `newID` gives is an argument.
module _ {W : Type 0} where
  -- `RequestID`
  unfoldable pub request_id : String → Middleware W
  request_id fresh next headers context w s =
      let id = or_id (get_header "x-request-id" headers) fresh in
      next headers (record context { request_id = id }) (set "x-request-id" id w) s

  -- `CorrelationID`
  unfoldable pub correlation_id : String → Middleware W
  correlation_id fresh next headers context w s =
      let id = or_id (or_id (get_header "x-correlation-id" headers) context.request_id) fresh in
      next headers (record context { correlation_id = id }) (set "x-correlation-id" id w) s

  -- `Logger`: the line that `emit` writes of a request is left out if the handler panics.
  unfoldable pub logger : (ℕ → Vars → W → W) → Middleware W
  logger emit next headers context w s =
      let ran = next headers context w s in
      if ran.panicked
      then ran
      else record ran { world = emit (status_or_ok ran.writer.status) context ran.world }

  -- `Timeout`, by `http.TimeoutHandler`: the handler writes to a writer of its own, which is copied
  -- when it returns in time. Of a handler that `expired` only the state is kept, as it goes on.
  unfoldable pub timeout : Bool → Middleware W
  timeout expired next headers context w s =
      let ran = next headers context unwritten s in
      if expired
      then record { writer = write_header 503 w; world = ran.world; panicked = false }
      else if ran.panicked
      then record { writer = w; world = ran.world; panicked = true }
      else record {
        writer =
            write_header (status_or_ok ran.writer.status)
              (record w { headers = merged w.headers ran.writer.headers });
        world = ran.world;
        panicked = false;
      }

  -- `Recover`
  unfoldable pub recover : Middleware W
  recover next headers context w s =
      let ran = next headers context w s in
      if ran.panicked
      then record {
        writer = write_header 500 (set "content-type" "application/json" ran.writer);
        world = ran.world;
        panicked = false;
      }
      else ran

  -- `Chain`: the loop runs from the last middleware down to the first.
  unfoldable pub wrap : List (Middleware W) → Handler W → Handler W
  wrap [] h = h
  wrap (mw ∷ mws) h = wrap mws (mw h)

  unfoldable pub backwards : List (Middleware W) → List (Middleware W)
  backwards [] = []
  backwards (mw ∷ mws) = backwards mws ++ mw ∷ []

  unfoldable pub chain : Handler W → List (Middleware W) → Handler W
  unfolding wrap backwards
  chain h mws = wrap (backwards mws) h

  -- `New` of internal/router/router.go around the routes.
  unfoldable pub new : (ℕ → Vars → W → W) → Bool → String → String → Handler W → Handler W
  new emit expired fresh fresh_chain mux =
      chain mux (
        request_id fresh
        ∷ correlation_id fresh_chain
        ∷ logger emit
        ∷ timeout expired
        ∷ recover
        ∷ [])
