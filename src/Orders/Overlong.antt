-- ===== src/Orders/Overlong.antt =====
-- What orders with an overlong token do to the API's breaker for the Auth service: the Auth service
-- refuses them with 422, which `raise_for_status` turns into an exception that the breaker counts.
use auto_sre.Prelude.{ℕ, ◌*◌, ◌≡◌, ◌∙◌, ap, true, false, Option, List, [], ◌∷◌, ◌++◌, length}
use auto_sre.Prelude.Int.{ℤ, pos, ◌-ℤ◌, ◌<ℤ◌}
use auto_sre.Prelude.Text.{String}
use auto_sre.Storage.Json.{Json}
use auto_sre.Breaker.{closed, opened, BreakerStore, World}
use auto_sre.Breaker.Protect.{Outcome}
use auto_sre.Orders.Token.{order_token}
use auto_sre.Orders.Create.{CallError, Order, valid_order, unavailable, create_order}
use auto_sre.Orders.Validate.{valid_request, Auth}
use auto_sre.Orders.Outage.{Attempt, Fails, submit_all, failures_shut_api}
use auto_sre.Prelude.{All, map, length-map}
use mathlib.Core.List.{map-append}
use auto_sre.Orders.Chain.{received, validate_overlong, remote}

module _ {S T : Type 0} (st : BreakerStore S) (auth_st : BreakerStore T) (second : ℕ) where
  -- The token of every order here, with the fields of the order and the state of the Auth service.
  module _ (order : Order) (authorization : Option String) (a : Auth T) (auth_now : ℤ) where
    abbrev pub attempt : ℤ × ℤ → Attempt S
    attempt (entered, left) = record {
      order = order;
      authorization = authorization;
      entered = entered;
      left = left;
      call = remote st auth_st second (λ w. w) (λ w. w) auth_now auth_now a;
    }

    -- Orders one after the other, each with the clock's readings at the ends of its call.
    pub submit : List (ℤ × ℤ) → World S → World S
    submit times = submit_all st second (map attempt times)

    attempt-Fails :
        (time : ℤ × ℤ)
        → valid_order order ≡ true
        → valid_request (order_token authorization) ≡ false
        → Fails (attempt time)
    unfolding received
    attempt-Fails (entered, left) good overlong =
        let refused =
          validate_overlong st auth_st second (λ w. w) (λ w. w) auth_now auth_now
            (order_token authorization) a overlong in
        (good, λ w. ap (λ v. (w, received v)) refused)

    attempts-Fails :
        (times : List (ℤ × ℤ))
        → valid_order order ≡ true
        → valid_request (order_token authorization) ≡ false
        → All Fails (map attempt times)
    attempts-Fails [] good overlong = tt
    attempts-Fails (time ∷ times) good overlong =
        (attempt-Fails time good overlong, attempts-Fails times good overlong)

    -- From a CLOSED breaker with no failure counted, five orders one after the other whose token the
    -- Auth service refuses for its length open the API's breaker for the Auth service: an order of
    -- anyone else within the recovery timeout of 30 seconds after the fifth, whatever its token and
    -- whatever the Auth service would say to it, gets the 503 of the open breaker.
    pub overlong_tokens_shut_api :
        (times : List (ℤ × ℤ)) (entered left now later : ℤ) (w : World S)
        (other_call : String → World S → World S × Outcome Json CallError) (other : Order)
        (credentials : Option String)
        → valid_order order ≡ true
        → valid_request (order_token authorization) ≡ false
        → (st.load w.stored).state ≡ closed
        → (st.load w.stored).failure_count ≡ 0
        → length times ≡ 4
        → valid_order other ≡ true
        → now -ℤ left <ℤ pos (30 * second)
        → let w' = submit (times ++ (entered, left) ∷ []) w in
          ((st.load w'.stored).state ≡ opened)
          × ((create_order st second other_call now later other credentials w').1
              ≡ unavailable "auth")
    unfolding submit
    overlong_tokens_shut_api times entered left now later w other_call other credentials good
          overlong c z four fine within =
        let other' : Attempt S = record {
          order = other;
          authorization = credentials;
          entered = now;
          left = later;
          call = other_call;
        } in
        rw (map-append attempt times ((entered, left) ∷ [])) (
          failures_shut_api st second (map attempt times) (attempt (entered, left)) other' w
            (attempts-Fails times good overlong) (attempt-Fails (entered, left) good overlong) c z
            (length-map times attempt ∙ four) fine within)
