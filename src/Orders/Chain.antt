-- ===== src/Orders/Chain.antt =====
-- An order from the API service to the Auth service, and what it says of its token that it is
-- created.
use auto_sre.Prelude.{
  ℕ, ◌≡◌, inl, inr, refl, sym, ◌∙◌, ap, Bool, true, false, Option, arith, Bool-cases,
}
use auto_sre.Prelude.Int.{ℤ}
use auto_sre.Prelude.Text.{String, is_one_of}
use auto_sre.Storage.Json.{Json, null, bool, num, str, arr, obj, end, field, get}
use auto_sre.Breaker.{BreakerStore, World, allow}
use auto_sre.Breaker.Protect.{Outcome, returned, raised, protect, protect-returned}
use auto_sre.Service.Endpoints.{truthy}
use auto_sre.Orders.Token.{order_token}
use auto_sre.Orders.Create.{
  CallError, circuit_open, failure, cancelled, call_errors, auth_breaker, Order, valid_order,
  created, unavailable, is_valid, answer, create_order,
}
use auto_sre.Orders.Create
use auto_sre.Orders.Validate.{
  backend, invalid_tokens, valid_request, identity_breaker, Auth, Verdict, verdict,
  unavailable as identity_unavailable, unprocessable, server_error, dropped, count_verdict,
  validate,
}

-- What the answer of POST /validate is to `HTTPServiceClient.post_json`: the body of a 200, and
-- else the `HTTPStatusError` of `raise_for_status`, which is an `Exception`.
unfoldable pub received : Verdict → Outcome Json CallError
received (verdict valid token) =
    returned (obj (field "valid" (bool valid) (field "token" (str token) end)))
received (identity_unavailable name) = raised failure
received unprocessable = raised failure
received server_error = raised failure
received dropped = raised failure

-- `result.get("valid")` of a call that returned an object, as a condition.
abbrev accepted : Outcome Json CallError → Bool
accepted (returned (obj result)) = is_valid (get "valid" result)
accepted (returned null) = false
accepted (returned (bool b)) = false
accepted (returned (num n)) = false
accepted (returned (str s)) = false
accepted (returned (arr xs)) = false
accepted (raised e) = false

answer_created :
    (order order' : Order) (ended : Outcome Json CallError)
    → answer order ended ≡ created order'
    → (value : Json) × (ended ≡ returned value) × (accepted ended ≡ true)
unfolding answer
answer_created order order' (returned (obj result)) e = (obj result, refl, ground arith)
answer_created order order' (returned null) e = grind arith
answer_created order order' (returned (bool b)) e = grind arith
answer_created order order' (returned (num n)) e = grind arith
answer_created order order' (returned (str s)) e = grind arith
answer_created order order' (returned (arr xs)) e = grind arith
answer_created order order' (raised (circuit_open name)) e = grind arith
answer_created order order' (raised failure) e = grind arith
answer_created order order' (raised cancelled) e = grind arith

received-accepted :
    (v : Verdict) → accepted (received v) ≡ true → (t : String) × (v ≡ verdict true t)
unfolding received truthy
received-accepted (verdict true t) h = (t, refl)
received-accepted (verdict false t) h = grind arith
received-accepted (identity_unavailable name) h = grind arith
received-accepted unprocessable h = grind arith
received-accepted server_error h = grind arith
received-accepted dropped h = grind arith

verdict_true :
    {T : Type 0} (token t : String) (w : World T) (ended : Outcome Bool CallError) (a : Auth T)
    → (count_verdict token w ended a).1 ≡ verdict true t
    → ended ≡ returned true
unfolding count_verdict
verdict_true token t w (returned true) a e = refl
verdict_true token t w (returned false) a e = grind arith
verdict_true token t w (raised (circuit_open name)) a e = grind arith
verdict_true token t w (raised failure) a e = grind arith
verdict_true token t w (raised cancelled) a e = grind arith

-- The token of an order that the API service creates, and what the API's and the Auth service's
-- breakers said to it. `a` is the state of the Auth service, `second` the number of clock units of a
-- second, and `others` and `auth_others` are what other requests do to the two breakers meanwhile.
module _ {S T : Type 0} (st : BreakerStore S) (auth_st : BreakerStore T) (second : ℕ)
    (others : World S → World S) (auth_others : World T → World T) where
  validate_small :
      (entered left : ℤ) (token : String) (a : Auth T)
      → valid_request token ≡ true
      → let (w, ended) =
          protect auth_st
            (identity_breaker second)
            call_errors
            entered
            left
            (backend auth_st second auth_others token)
            a.breaker in
        (validate auth_st second auth_others entered left token a).1
        ≡ (count_verdict token w ended a).1
  unfolding validate
  validate_small entered left token a h = rw h refl

  pub validate_overlong :
      (entered left : ℤ) (token : String) (a : Auth T)
      → valid_request token ≡ false
      → (validate auth_st second auth_others entered left token a).1 ≡ unprocessable
  unfolding validate
  validate_overlong entered left token a h = rw h refl

  validate-true :
      (entered left : ℤ) (token t : String) (a : Auth T)
      → (validate auth_st second auth_others entered left token a).1 ≡ verdict true t
      → (valid_request token ≡ true) × (is_one_of token invalid_tokens ≡ false)
  validate-true entered left token t a e = elim (Bool-cases (valid_request token)) [
    | inl small ↦
        let (w, ended) =
          protect auth_st (identity_breaker second) call_errors entered left
            (backend auth_st second auth_others token) a.breaker in
        let good = sym (validate_small entered left token a small) ∙ e in
        let said = verdict_true token t w ended a good in
        let (admitted, value) =
          protect-returned auth_st (identity_breaker second) call_errors entered left
            (backend auth_st second auth_others token) a.breaker true said in
        (small, ground arith)
    | inr bad ↦ let refused = validate_overlong entered left token a bad in grind arith
  ]

  create_valid :
      (call : String → World S → World S × Outcome Json CallError) (entered left : ℤ)
      (order : Order) (authorization : Option String) (w : World S)
      → valid_order order ≡ true
      → let (w', ended) =
          protect st
            (auth_breaker second)
            call_errors
            entered
            left
            (call (order_token authorization))
            w in
        create_order st second call entered left order authorization w ≡ (w', answer order ended)
  unfolding create_order
  create_valid call entered left order authorization w h = rw h refl

  create_invalid :
      (call : String → World S → World S × Outcome Json CallError) (entered left : ℤ)
      (order : Order) (authorization : Option String) (w : World S)
      → valid_order order ≡ false
      → (create_order st second call entered left order authorization w).1 ≡ Create.unprocessable
  unfolding create_order
  create_invalid call entered left order authorization w h = rw h refl

  -- `auth_client.post_json("/validate", …)` against that service, at its clock's readings.
  abbrev pub remote : ℤ → ℤ → Auth T → String → World S → World S × Outcome Json CallError
  remote entered left a token w =
      (others w, received (validate auth_st second auth_others entered left token a).1)

  -- With the Auth service at the other end of the call, an order is created only if its fields are in
  -- their bounds, the API's breaker admitted the call, and its token has 1 to 4096 characters and is
  -- neither "invalid" nor "expired", whatever the state of the Auth service.
  pub created_order_authorized :
      (entered left auth_entered auth_left : ℤ) (order order' : Order)
      (authorization : Option String) (a : Auth T) (w : World S)
      → (create_order st second
          (remote auth_entered auth_left a)
          entered
          left
          order
          authorization
          w).1
        ≡ created order'
      → let token = order_token authorization in
        (valid_order order ≡ true)
        × ((allow st (auth_breaker second) entered w).1 ≡ true)
        × (valid_request token ≡ true)
        × (is_one_of token invalid_tokens ≡ false)
  created_order_authorized entered left auth_entered auth_left order order' authorization a w e =
      let token = order_token authorization in
      let call = remote auth_entered auth_left a in
      elim (Bool-cases (valid_order order)) [
        | inl good ↦
            let made = create_valid call entered left order authorization w good in
            let (value, ended, accepts) =
              answer_created order order' _ (sym (ap (λ p. p.1) made) ∙ e) in
            let (admitted, said) =
              protect-returned st (auth_breaker second) call_errors entered left (call token) w
                value ended in
            let v = (validate auth_st second auth_others auth_entered auth_left token a).1 in
            let (t, yes_true) =
              received-accepted v (ap accepted said ∙ ap accepted (sym ended) ∙ accepts) in
            let (sized, listed) = validate-true auth_entered auth_left token t a yes_true in
            (good, admitted, sized, listed)
        | inr bad ↦
            let refused = create_invalid call entered left order authorization w bad in grind arith
      ]
