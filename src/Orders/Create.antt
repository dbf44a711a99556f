-- ===== src/Orders/Create.antt =====
-- `create_order` of api/main.py. The calls to the Auth service go through the breaker `auth`.
use auto_sre.Prelude.{
  ℕ, ◌*◌, ◌≡◌, refl, Bool, true, false, not, ◌&&◌, ◌||◌, Bool-cases, inl, inr, Option, none, some,
  ltb, leb, if◌then◌else◌,
}
use auto_sre.Prelude.Int.{ℤ, pos}
use auto_sre.Prelude.Text.{String}
use auto_sre.Storage.Json.{Json, null, bool, num, str, arr, obj, end, field, get}
use auto_sre.Breaker.{BreakerState, is_opened, state_text, BreakerStore, Config, World}
use auto_sre.Breaker.Protect.{Outcome, returned, raised, Exceptions, protect}
use auto_sre.Service.Endpoints.{truthy, ready}
use auto_sre.Chaos.State.{ChaosState}
use auto_sre.Orders.Token.{order_token, text_length}

-- What a call under the breaker raises: the breaker's own `CircuitBreakerOpenError`, another
-- `Exception`, or a `CancelledError`, which is no `Exception`.
pub data CallError : Type 0 where
  circuit_open : String → CallError
  failure : CallError
  cancelled : CallError

-- `expected_exceptions` is `(Exception,)` here, the default.
abbrev is_exception : CallError → Bool
is_exception (circuit_open name) = true
is_exception failure = true
is_exception cancelled = false

abbrev pub call_errors : Exceptions CallError
call_errors = record { expected = is_exception; open_error = circuit_open }

-- `_auth_breaker`; `second` is the number of clock units of a second.
abbrev pub auth_breaker : ℕ → Config
auth_breaker second = record {
  name = "auth";
  failure_threshold = 5;
  recovery_timeout = pos (30 * second);
  success_threshold = 2;
}

-- An `OrderRequest` with its two fields.
pub record Order : Type 0 where
  pub item : String
  pub quantity : ℕ

-- The bounds that pydantic checks; a quantity below 0 is refused as 0 is.
unfoldable pub valid_order : Order → Bool
valid_order order =
    leb 1 (text_length order.item)
    && leb (text_length order.item) 100
    && ltb 0 order.quantity
    && leb order.quantity 1000

-- The answers: 200 with the order, 401, 502, the 503 of `circuit_breaker_open_handler` under the
-- breaker's name, 422, the 500 of an exception that the handler lets out, and a cancelled request.
pub data Answer : Type 0 where
  created : Order → Answer
  unauthorized : Answer
  bad_gateway : Answer
  unavailable : String → Answer
  unprocessable : Answer
  server_error : Answer
  dropped : Answer

-- `result.get("valid")`, as a condition; the result of a call is any JSON value.
abbrev pub is_valid : Option Json → Bool
is_valid none = false
is_valid (some value) = truthy value

-- What the handler does with the end of the call.
unfoldable pub answer : Order → Outcome Json CallError → Answer
answer order (returned (obj result)) =
    if is_valid (get "valid" result) then created order else unauthorized
answer order (returned null) = server_error
answer order (returned (bool b)) = server_error
answer order (returned (num n)) = server_error
answer order (returned (str s)) = server_error
answer order (returned (arr xs)) = server_error
answer order (raised (circuit_open name)) = unavailable name
answer order (raised failure) = bad_gateway
answer order (raised cancelled) = dropped

-- `validate` is `auth_client.post_json("/validate", json={"token": token})`, which may come with
-- changes to the breaker by other requests meanwhile.
module _ {S : Type 0} (st : BreakerStore S) (second : ℕ)
    (validate : String → World S → World S × Outcome Json CallError) where
  unfoldable pub create_order : ℤ → ℤ → Order → Option String → World S → World S × Answer
  create_order entered left order authorization w =
      if valid_order order
      then (let (w', ended) =
            protect st (auth_breaker second) call_errors entered left
              (validate (order_token authorization)) w in
          (w', answer order ended))
      else (w, unprocessable)

-- What the `_readiness` of api/main.py and of auth/main.py returns, with the key of its breaker: the
-- service is ready while the breaker is not OPEN.
readiness : String → BreakerState → Json
readiness key s =
    obj (field "ready" (bool (not (is_opened s))) (field key (str (state_text s)) end))

abbrev api_readiness : BreakerState → Json
api_readiness = readiness "auth_breaker"

abbrev auth_readiness : BreakerState → Json
auth_readiness = readiness "identity_breaker"

-- With the readiness check of the API or of the Auth service, GET /ready answers 503 exactly while
-- chaos injects errors or the breaker is OPEN, and 200 else; the flag in the answer agrees with the
-- status.
ready-readiness :
    (service key : String) (chaos : ChaosState) (s : BreakerState)
    → let reply = ready service chaos (some (readiness key s)) in
      (reply.status_code ≡ (if chaos.error_enabled || is_opened s then 503 else 200))
      × (reply.ready ≡ not (chaos.error_enabled || is_opened s))
unfolding ready readiness truthy
ready-readiness service key chaos s = elim (Bool-cases chaos.error_enabled) [
  | inl on ↦ rw on (refl, refl)
  | inr off ↦ elim (Bool-cases (is_opened s)) [
    | inl o ↦ rw (off, o) (refl, refl)
    | inr c ↦ rw (off, c) (refl, refl)
  ]
]
