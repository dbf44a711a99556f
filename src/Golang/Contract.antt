-- ===== src/Golang/Contract.antt =====
-- The status contract of POST /orders, which internal/handlers/orders.go keeps of api/main.py.
use Prim.Native.String.{◌++◌}
use auto_sre.Prelude.{
  ℕ, ◌≡◌, refl, sym, ◌∙◌, ap, Bool, true, false, not, ◌&&◌, Option, none, some, [], Bool-cases, inl,
  inr, if◌then◌else◌,
}
use auto_sre.Prelude.Int.{ℤ}
use auto_sre.Prelude.Text.{String}
use auto_sre.Storage.Json.{Json, bool, str, obj, end, field}
use auto_sre.Breaker.{BreakerStore, World, allow}
use auto_sre.Breaker.Protect.{Outcome, protect_admitted, protect_refused}
use auto_sre.Service.Endpoints.{truthy}
use auto_sre.Observability.Asgi.{Headers, Vars}
use auto_sre.Orders.Token.{header_or_empty}
use auto_sre.Orders.Token as Token
use auto_sre.Orders.Create.{CallError, call_errors, auth_breaker, Order, Answer, unavailable}
use auto_sre.Orders.Create as Create
use auto_sre.Orders.Validate.{Verdict, verdict, unprocessable, server_error, dropped}
use auto_sre.Orders.Validate as Validate
use auto_sre.Orders.Chain.{received}
use auto_sre.Orders.Client.{
  Method, post, Reply, Client, http_answer, open_reply, post_json, post_json-received,
}
use auto_sre.Orders.Client as Client
use auto_sre.Golang.Client.{call_headers, verdict_of, validate}
use auto_sre.Golang.Orders.{order_token, valid_order, answer, create_order}
use auto_sre.Golang.Agreement.{is_ascii, has_separator, order_token_agrees, valid_order_agrees}

-- What the Go client makes of the Auth service's answers.
abbrev ruling : Verdict → Option Bool
ruling (verdict valid token) = some valid
ruling (Validate.unavailable name) = none
ruling unprocessable = none
ruling server_error = none
ruling dropped = none

abbrev verdict_body : Bool → String → Json
verdict_body valid token = obj (field "valid" (bool valid) (field "token" (str token) end))

-- A call of the Python service, with what other requests do to its breaker meanwhile.
abbrev pub python_call :
    {S : Type 0}
    → (World S → World S)
    → (ℕ → Bool)
    → (Method → String → Headers → Reply)
    → Client
    → Vars
    → String
    → World S
    → World S × Outcome Json CallError
python_call others is_error send client vars token w = (
  others w,
  post_json is_error send client vars "/validate" (obj (field "token" (str token) end)) [],
)

module _ (decode : Json → Option Bool)
    (decodes : (valid : Bool) (token : String)
      → decode (verdict_body valid token) ≡ some valid) where
  verdict_of-http_answer :
      (detail : Option Json) (v : Verdict) → verdict_of decode (http_answer detail v) ≡ ruling v
  unfolding verdict_of http_answer open_reply
  verdict_of-http_answer detail (verdict valid token) = decodes valid token
  verdict_of-http_answer detail (Validate.unavailable name) = refl
  verdict_of-http_answer detail unprocessable = refl
  verdict_of-http_answer detail server_error = refl
  verdict_of-http_answer detail dropped = refl

  answers_agree :
      (order : Order) (v : Verdict)
      → Create.answer order (received v) ≡ answer false order (ruling v)
  unfolding Create.answer answer received truthy
  answers_agree order (verdict true token) = refl
  answers_agree order (verdict false token) = refl
  answers_agree order (Validate.unavailable name) = refl
  answers_agree order unprocessable = refl
  answers_agree order server_error = refl
  answers_agree order dropped = refl

  go_valid :
      (auth : String → Option Bool) (order : Order) (authorization : Option String)
      → valid_order order ≡ true
      → create_order auth false order authorization
        ≡ answer false order (auth (order_token authorization))
  unfolding create_order
  go_valid auth order authorization good = rw good refl

  go_invalid :
      (auth : String → Option Bool) (order : Order) (authorization : Option String)
      → valid_order order ≡ false
      → create_order auth false order authorization ≡ Create.unprocessable
  unfolding create_order
  go_invalid auth order authorization wrong = rw wrong refl

  module _ {S : Type 0} (st : BreakerStore S) (second : ℕ) (others : World S → World S)
      (is_error : ℕ → Bool) (send go_send : Method → String → Headers → Reply) where
    admitted_order :
        (call : String → World S → World S × Outcome Json CallError) (entered left : ℤ)
        (order : Order) (authorization : Option String) (w : World S)
        → Create.valid_order order ≡ true
        → (allow st (auth_breaker second) entered w).1 ≡ true
        → (Create.create_order st second call entered left order authorization w).1
          ≡ Create.answer order
              (call
                (Token.order_token authorization)
                (allow st (auth_breaker second) entered w).0).1
    unfolding Create.create_order
    admitted_order call entered left order authorization w good admitted =
        let (same, _) =
          protect_admitted st (auth_breaker second) call_errors entered left
            (call (Token.order_token authorization)) w admitted in
        rw good (ap (Create.answer order) same)

    refused_order :
        (call : String → World S → World S × Outcome Json CallError) (entered left : ℤ)
        (order : Order) (authorization : Option String) (w : World S)
        → Create.valid_order order ≡ true
        → (allow st (auth_breaker second) entered w).1 ≡ false
        → (Create.create_order st second call entered left order authorization w).1
          ≡ unavailable "auth"
    unfolding Create.create_order Create.answer
    refused_order call entered left order authorization w good refused =
        let shut =
          protect_refused st (auth_breaker second) call_errors entered left
            (call (Token.order_token authorization)) w refused in
        rw good (ap (Create.answer order) shut)

    invalid_order :
        (call : String → World S → World S × Outcome Json CallError) (entered left : ℤ)
        (order : Order) (authorization : Option String) (w : World S)
        → Create.valid_order order ≡ false
        → (Create.create_order st second call entered left order authorization w).1
          ≡ Create.unprocessable
    unfolding Create.create_order
    invalid_order call entered left order authorization w wrong = rw wrong refl

    -- An order with an item in ASCII and an Authorization header in ASCII without the separators U+001C
    -- to U+001F, placed with the Python service and with the Go one, where both transports bring the
    -- verdicts of the same Auth service: the answers are the same, but for the 503 that the Python
    -- service gives a valid order while its breaker refuses the call. The Python service reads the
    -- header in Latin-1 and the Go one in UTF-8, which give the same text of what is ASCII in the
    -- first. The client waits for its answer, `is_error` is asked of four statuses, and `decode` of the
    -- bodies of verdicts only.
    pub contract_kept :
        (client : Client) (base_url : String) (vars context : Vars) (entered left : ℤ)
        (order : Order) (authorization go_authorization : Option String) (w : World S)
        (auth : String → Verdict) (detail go_detail : Option Json)
        → is_ascii order.item ≡ true
        → is_ascii (header_or_empty authorization) ≡ true
        → (is_ascii (header_or_empty authorization) ≡ true → go_authorization ≡ authorization)
        → has_separator (header_or_empty authorization) ≡ false
        → is_error 200 ≡ false
        → is_error 422 ≡ true
        → is_error 500 ≡ true
        → is_error 503 ≡ true
        → ((token : String)
            → send
                (post (obj (field "token" (str token) end)))
                (client.base_url ++ "/validate")
                (Client.call_headers vars [])
              ≡ http_answer detail (auth token))
        → ((token : String)
            → go_send
                (post (obj (field "token" (str token) end)))
                (base_url ++ "/validate")
                (call_headers context)
              ≡ http_answer go_detail (auth token))
        → (Create.create_order st second
            (python_call others is_error send client vars)
            entered
            left
            order
            authorization
            w).1
          ≡ (if Create.valid_order order && not (allow st (auth_breaker second) entered w).1
              then unavailable "auth"
              else create_order
                  (validate decode go_send base_url context)
                  false
                  order
                  go_authorization)
    unfolding validate
    contract_kept client base_url vars context entered left order authorization go_authorization w
          auth detail go_detail ascii header_ascii read_alike plain ok bad failed shut served
          go_served =
        let alike = read_alike header_ascii in
        let call = python_call others is_error send client vars in
        let token = Token.order_token authorization in
        let v = auth token in
        let same_bounds = valid_order_agrees order ascii in
        let said =
          post_json-received is_error send client vars "/validate"
            (obj (field "token" (str token) end)) [] detail v ok bad failed shut (served token) in
        let go_said : validate decode go_send base_url context (order_token go_authorization)
            ≡ ruling v =
          rw (alike, order_token_agrees authorization plain)
            (ap (verdict_of decode) (go_served token) ∙ verdict_of-http_answer go_detail v) in
        elim (Bool-cases (Create.valid_order order)) [
          | inr wrong ↦ rw wrong (
              invalid_order call entered left order authorization w wrong
              ∙ sym (go_invalid _ order go_authorization (same_bounds ∙ wrong)))
          | inl good ↦ elim (Bool-cases (allow st (auth_breaker second) entered w).1) [
            | inr refused ↦
                rw (good, refused)
                  (refused_order call entered left order authorization w good refused)
            | inl admitted ↦
                rw (good, admitted)
                  (admitted_order call entered left order authorization w good admitted
                    ∙ ap (Create.answer order) said
                    ∙ answers_agree order v
                    ∙ sym (ap (answer false order) go_said)
                    ∙ sym (go_valid _ order go_authorization (same_bounds ∙ good)))
          ]
        ]
