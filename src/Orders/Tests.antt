-- ===== src/Orders/Tests.antt =====
-- Orders and tokens on small values, and the witnesses.
mod Injected
mod Recovery
use auto_sre.Prelude.{ℕ, zero, suc, ◌≡◌, refl, true, false, none, some, List, [], ◌∷◌, ◌++◌, arith}
use auto_sre.Prelude.Int.{ℤ, pos, ◌-ℤ◌}
use auto_sre.Prelude.Text.{String, is_one_of}
use auto_sre.Breaker.{opened, BreakerRecord, new_record, in_memory_store, World, allow}
use auto_sre.Breaker.Protect.{raised, protect}
use auto_sre.RateLimit.Text.{strip}
use auto_sre.Service.Endpoints.{truthy}
use auto_sre.Prelude.{Bool, leb, if◌then◌else◌}
use auto_sre.Prelude.Text.{str_eq}
use auto_sre.Storage.Json.{obj, str, field, end}
use auto_sre.Observability.Asgi.{Headers, Vars}
use auto_sre.Orders.Validate.{verdict}
use auto_sre.Orders.Client.{
  Method, post, get, Reply, no_response, http_client, http_answer, rstrip_slash, post_json,
  post_json-received,
}
use auto_sre.Service.Lifespan.{left, lifespan}
use auto_sre.Prelude.{if◌then◌else◌}
use auto_sre.Prelude.Text.{str_eq}
use auto_sre.Orders.Client.{rstrip_slash}
use auto_sre.Orders.Programs.{
  Request, guarded, status, serve_all, import_api, shutdown, serving, api_lifespan,
}
use auto_sre.Prelude.{Option, All}
use auto_sre.Orders.Token.{order_token, without_bearer}
use auto_sre.Orders.Create.{
  failure, Order, valid_order, created, unavailable, auth_breaker, answer, create_order,
}
use auto_sre.Orders.Validate.{Auth, valid_request, validate, invalid_tokens, count_verdict}
use auto_sre.Orders.Chain.{remote, received, created_order_authorized}
use auto_sre.Orders.Overlong.{submit, overlong_tokens_shut_api}

abbrev fresh : World BreakerRecord
fresh = record { stored = new_record; gauge = 0; open_total = 0; rejections_total = 0; events = [] }

abbrev auth_service : Auth BreakerRecord
auth_service = record { breaker = fresh; valid_total = 0; invalid_total = 0 }

abbrev two_widgets : Order
two_widgets = record { item = "widget"; quantity = 2 }

tokens :
    (order_token none ≡ "demo-token")
    × (order_token (some "Bearer  abc ") ≡ "abc")
    × (order_token (some "Bearer ") ≡ "demo-token")
unfolding order_token without_bearer strip
tokens = (refl, refl, refl)

made :
    (create_order in_memory_store 1
      (remote in_memory_store in_memory_store 1 (λ w. w) (λ w. w) (pos 1) (pos 1) auth_service)
      (pos 1)
      (pos 2)
      two_widgets
      (some "Bearer abc")
      fresh).1
    ≡ created two_widgets
unfolding create_order validate order_token without_bearer strip valid_order valid_request protect
    allow answer received truthy count_verdict
made = refl

created_order_authorized_example :
    (valid_order two_widgets ≡ true)
    × ((allow in_memory_store (auth_breaker 1) (pos 1) fresh).1 ≡ true)
    × (valid_request (order_token (some "Bearer abc")) ≡ true)
    × (is_one_of (order_token (some "Bearer abc")) invalid_tokens ≡ false)
created_order_authorized_example =
    created_order_authorized in_memory_store in_memory_store 1 (λ w. w) (λ w. w) (pos 1) (pos 2)
      (pos 1) (pos 1) two_widgets two_widgets (some "Bearer abc") auth_service fresh made

-- A text of `n` characters, and an order that carries it as its token.
abbrev text_of : ℕ → String
text_of zero = ""
text_of (suc n) = String.◌∷◌ "x" (text_of n)

overlong_refused : valid_request (order_token (some (text_of 4097))) ≡ false
unfolding valid_request order_token without_bearer strip
overlong_refused = refl

abbrev four : List (ℤ × ℤ)
four = (pos 1, pos 2) ∷ (pos 3, pos 4) ∷ (pos 5, pos 6) ∷ (pos 7, pos 8) ∷ []

overlong_tokens_shut_api_example :
    let w' =
      submit in_memory_store in_memory_store 1 two_widgets
        (some (text_of 4097))
        auth_service
        (pos 1)
        (four ++ (pos 9, pos 10) ∷ [])
        fresh in
    (w'.stored.state ≡ opened)
    × ((create_order in_memory_store 1
          (λ token w. (w, raised failure))
          (pos 39)
          (pos 39)
          two_widgets
          (some "Bearer abc")
          w').1
        ≡ unavailable "auth")
unfolding ◌-ℤ◌ valid_order
overlong_tokens_shut_api_example =
    overlong_tokens_shut_api in_memory_store in_memory_store 1 two_widgets (some (text_of 4097))
      auth_service (pos 1) four (pos 9) (pos 10) (pos 39) (pos 39) fresh
      (λ token w. (w, raised failure)) two_widgets (some "Bearer abc") refl overlong_refused refl
      refl refl refl (omega arith)

-- An environment that sets AUTH_URL.
abbrev moved_env : String → Option String
moved_env name = if str_eq name "AUTH_URL" then some "http://auth:9000/" else none

abbrev two_requests : List Request
two_requests = guarded ∷ status ∷ []

api_lifespan_example :
    let own = auth_breaker 1 in
    let api = import_api moved_env 1 in
    let r = lifespan none (some shutdown) (serving 1 two_requests) api in
    (r.phase ≡ left)
    × (r.service_up ≡ 0)
    × (r.app.client.closed ≡ true)
    × (r.app.client.base_url ≡ rstrip_slash "http://auth:9000/")
    × (r.app.registry ≡ ("auth", own) ∷ [])
    × All (λ listed. listed ≡ own ∷ []) (serve_all "auth" own two_requests api.registry).1
api_lifespan_example = api_lifespan moved_env 1 two_requests
