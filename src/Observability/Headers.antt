-- ===== src/Observability/Headers.antt =====
-- What a client sees of the ids and of the security headers, and how a chain of services shares one
-- correlation id.
use mathlib.Core.Bool.{false≢true}
use auto_sre.Prelude.{
  ℕ, ◌≡◌, refl, sym, ◌∙◌, false, Option, none, some, List, [], ◌∷◌, ◌++◌, append_assoc, map, All,
  if◌then◌else◌, Bool-cases, inl, inr,
}
use auto_sre.Prelude.Text.{String, str_eq, starts_with, starts_with_any}
use auto_sre.Observability.Asgi.{
  Headers, Message, response_start, other, Vars, App, Scope, scope_header, extend, request_ids,
  id_headers, added_headers, request_context, security, security_headers, csp, docs_paths,
  propagation_headers,
}

extend_twice :
    (first second : Headers) (sent : List Message)
    → map (extend second) (map (extend first) sent) ≡ map (extend (first ++ second)) sent
extend_twice first second [] = refl
extend_twice first second (response_start status headers ∷ sent) =
    rw (append_assoc headers first second, extend_twice first second sent)
extend_twice first second (other kind ∷ sent) = rw (extend_twice first second sent)

abbrev pub http_scope : String → Headers → Scope
http_scope path headers = record { type = "http"; path = some path; headers = headers }

-- The value that stands last under a name.
pub last_value : String → Headers → Option String
last_value name [] = none
last_value name ((key, value) ∷ headers) = elim (last_value name headers) [
  | some later ↦ some later
  | none ↦ if str_eq key name then some value else none
]

last_value-append :
    (name value : String) (own more : Headers)
    → last_value name more ≡ some value
    → last_value name (own ++ more) ≡ some value
unfolding last_value
last_value-append name value [] more last = last
last_value-append name value ((key, v) ∷ own) more last =
    rw (last_value-append name value own more last) refl

-- A response start whose last values are the five fixed headers, the content security policy unless
-- the path is one of the documentation, and the ids; nothing of any other message.
pub Secured : String → Vars → Message → Type 0
Secured path ids (other kind) = Unit {0}
Secured path ids (response_start status headers) =
    (last_value "x-content-type-options" headers ≡ some "nosniff")
    × (last_value "x-frame-options" headers ≡ some "DENY")
    × (last_value "referrer-policy" headers ≡ some "no-referrer")
    × (last_value "permissions-policy" headers ≡ some "geolocation=(), microphone=(), camera=()")
    × (last_value "strict-transport-security" headers ≡ some "max-age=31536000; includeSubDomains")
    × (starts_with path "/docs" ≡ false
        → starts_with path "/redoc" ≡ false
        → starts_with path "/openapi.json" ≡ false
        → last_value "content-security-policy" headers
          ≡ some "default-src 'none'; frame-ancestors 'none'")
    × (last_value "x-request-id" headers ≡ some ids.request_id)
    × (last_value "x-correlation-id" headers ≡ some ids.correlation_id)

added_last :
    (path : String) (ids : Vars) (status : ℕ) (own : Headers)
    → Secured path ids (response_start status (own ++ (added_headers path ++ id_headers ids)))
unfolding added_headers last_value Secured
added_last path ids status own = elim (Bool-cases (starts_with_any path docs_paths)) [
  | inl docs ↦
      let more = security_headers ++ id_headers ids in
      let last = λ (name value : String) (e : last_value name more ≡ some value).
        last_value-append name value own more e in
      rw docs (
        last _ _ refl,
        last _ _ refl,
        last _ _ refl,
        last _ _ refl,
        last _ _ refl,
        (λ a b c. absurd (false≢true (sym (rw (a, b, c) refl) ∙ docs))),
        last _ _ refl,
        last _ _ refl,
      )
  | inr plain ↦
      let more = (security_headers ++ csp ∷ []) ++ id_headers ids in
      let last = λ (name value : String) (e : last_value name more ≡ some value).
        last_value-append name value own more e in
      rw plain (
        last _ _ refl,
        last _ _ refl,
        last _ _ refl,
        last _ _ refl,
        last _ _ refl,
        (λ a b c. last _ _ refl),
        last _ _ refl,
        last _ _ refl,
      )
]

-- A message without its headers.
abbrev pub bare : Message → Message
bare (response_start status headers) = response_start status []
bare (other kind) = other kind

added-Secured :
    (path : String) (ids : Vars) (sent : List Message)
    → All (Secured path ids) (map (extend (added_headers path ++ id_headers ids)) sent)
unfolding Secured
added-Secured path ids [] = tt
added-Secured path ids (response_start status own ∷ sent) =
    (added_last path ids status own, added-Secured path ids sent)
added-Secured path ids (other kind ∷ sent) = (tt, added-Secured path ids sent)

bare-extend :
    (more : Headers) (sent : List Message) → map bare (map (extend more) sent) ≡ map bare sent
bare-extend more [] = refl
bare-extend more (response_start status own ∷ sent) = rw (bare-extend more sent)
bare-extend more (other kind ∷ sent) = rw (bare-extend more sent)

-- Of an HTTP request the application runs with the request's ids as its context. The messages that
-- it sends go out in order, and of their kind and status. Whatever headers the application has set
-- itself, the last values of each response start under the names of the security headers are the fixed
-- ones (and no promise on the content security policy of the documentation), and under
-- x-request-id and x-correlation-id those of the context that it ran in. Its exception passes
-- through, and the context is then what it was before the request, exception or not.
pub request_context-security :
    {W : Type 0} (fresh path : String) (headers : Headers) (app : App W) (vars : Vars) (w : W)
    → let ids = request_ids fresh headers in
      let inner = app (http_scope path headers) ids w in
      let run = request_context fresh (security app) (http_scope path headers) vars w in
      All (Secured path ids) run.sent
      × (map bare run.sent ≡ map bare inner.sent)
      × (run.vars ≡ vars)
      × (run.world ≡ inner.world)
      × (run.failed ≡ inner.failed)
unfolding request_context security
request_context-security fresh path headers app vars w =
    let ids = request_ids fresh headers in
    let inner = app (http_scope path headers) ids w in
    let more = added_headers path ++ id_headers ids in
    let twice = extend_twice (added_headers path) (id_headers ids) inner.sent in
    (
      rw twice (added-Secured path ids inner.sent),
      rw twice (bare-extend more inner.sent),
      refl,
      refl,
      refl,
    )

-- The headers that a call to another service arrives with: `propagation_headers` of the caller's
-- context, with the names as `lower` leaves them (an ASGI server gives them in lower case).
unfoldable outgoing : (String → String) → Vars → Headers
outgoing lower vars = map (λ h. (lower h.0, h.1)) (propagation_headers vars)

-- The ids at each service of a chain of calls, `vars` being those of the first; `freshes` are the
-- ids that the services make.
pub hops : (String → String) → List String → Vars → List Vars
hops lower [] vars = []
hops lower (fresh ∷ freshes) vars =
    let ids = request_ids fresh (outgoing lower vars) in ids ∷ hops lower freshes ids

outgoing-ids :
    (lower : String → String) (fresh rid cid : String)
    → lower "X-Correlation-ID" ≡ "x-correlation-id"
    → str_eq cid "" ≡ false
    → str_eq cid "-" ≡ false
    → request_ids fresh (outgoing lower (record { request_id = rid; correlation_id = cid }))
      ≡ record { request_id = fresh; correlation_id = cid }
unfolding request_ids outgoing propagation_headers scope_header
outgoing-ids lower fresh rid cid l full known = rw (full, known, l, full) refl

-- The services of a chain of calls, each called from within the request of the one before it, all
-- work under the first one's correlation id, unless that is empty or "-", and each under a request
-- id that it made itself.
pub hops_share_correlation :
    (lower : String → String) (freshes : List String) (rid cid : String)
    → lower "X-Correlation-ID" ≡ "x-correlation-id"
    → str_eq cid "" ≡ false
    → str_eq cid "-" ≡ false
    → hops lower freshes (record { request_id = rid; correlation_id = cid })
      ≡ map (λ fresh. record { request_id = fresh; correlation_id = cid }) freshes
unfolding hops
hops_share_correlation lower [] rid cid l full known = refl
hops_share_correlation lower (fresh ∷ freshes) rid cid l full known = rw (
  outgoing-ids lower fresh rid cid l full known,
  hops_share_correlation lower freshes fresh cid l full known,
)
