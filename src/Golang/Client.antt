-- ===== src/Golang/Client.antt =====
-- `Auth` of internal/clients/auth.go, the client of the Auth service, over a transport.
use Prim.Native.String.{◌++◌}
use auto_sre.Prelude.{Bool, Option, none, some, [], ◌∷◌, leb, if◌then◌else◌}
use auto_sre.Prelude.Text.{String, str_eq}
use auto_sre.Storage.Json.{Json, str, obj, field, end}
use auto_sre.Observability.Asgi.{Headers, Vars}
use auto_sre.Orders.Client.{Method, post, Reply, response, no_response}

-- The headers of a call made in a request's context.
unfoldable pub call_headers : Vars → Headers
call_headers context =
    ("Content-Type", "application/json")
    ∷ (if str_eq context.correlation_id ""
        then []
        else ("X-Correlation-ID", context.correlation_id) ∷ [])

-- `decode` is what the JSON decoder makes of a document for a struct with the one field `valid`:
-- the field, or an error. An answer that is no JSON is an error too.
module _ (decode : Json → Option Bool) where
  -- What is made of the answer: the verdict, or an error.
  unfoldable pub verdict_of : Reply → Option Bool
  verdict_of no_response = none
  verdict_of (response status body) =
      if leb 400 status then none else elim body [ none ↦ none | some value ↦ decode value ]

  -- `Validate`
  unfoldable pub validate :
      (Method → String → Headers → Reply) → String → Vars → String → Option Bool
  validate send base_url context token = verdict_of (
      send (post (obj (field "token" (str token) end))) (base_url ++ "/validate")
        (call_headers context))
