-- ===== src/Orders/Injected.antt =====
-- The API's orders while chaos injects errors into every request of the Auth service: each call goes
-- through HTTPServiceClient to the Auth service's middlewares.
use auto_sre.Prelude.{
  ℕ, ◌*◌, ◌≡◌, refl, ◌∙◌, ap, Bool, true, false, Option, none, some, List, [], ◌∷◌, ◌++◌, All, map,
  length, length-map, arith,
}
use mathlib.Core.List.{map-append}
use auto_sre.Prelude.Int.{ℤ, pos, ◌-ℤ◌, ◌<ℤ◌}
use auto_sre.Prelude.Text.{String, str_eq}
use auto_sre.Storage.Json.{Json, str, obj, field, end}
use auto_sre.Chaos.State.{ChaosState, rate_one, should_inject_error}
use auto_sre.Chaos.Controller.{Controller, apply_request_chaos, is_control}
use auto_sre.RateLimit.Limiter.{Request}
use auto_sre.Observability.Asgi.{Vars}
use auto_sre.Observability.Red.{Metrics, Ending, response, raised, interrupted}
use auto_sre.Service.Pipeline.{Service, Arrival, serve, injected_before_limit}
use auto_sre.Breaker.{closed, opened, BreakerStore, World}
use auto_sre.Breaker.Protect.{Outcome}
use auto_sre.Breaker.Protect as Protect
use auto_sre.Orders.Create.{CallError, failure, Order, valid_order, unavailable}
use auto_sre.Orders.Client.{Client, Reply, post_json, finish}
use auto_sre.Orders.Client as Client
use auto_sre.Orders.Outage.{Attempt, Fails, submit_one, submit_all, failures_shut_api}

-- What the server sends for the end of a request, with the body where it is JSON; an exception that
-- leaves the application becomes a 500 of text, and what is interrupted sends nothing.
abbrev reply_of : Option Json → Ending → Reply
reply_of body (response status) = Client.response status body
reply_of body (raised name) = Client.response 500 none
reply_of body interrupted = Client.no_response

-- Chaos injects an error into every request.
abbrev AllErrors : ChaosState → Type 0
AllErrors s = (s.error_enabled ≡ true) × (s.error_rate ≡ rate_one)

injects_always : (s : ChaosState) → AllErrors s → (should_inject_error s).1 ≡ true
unfolding should_inject_error
injects_always s (on, full) = ground arith

apply-injects :
    (path : String) (c : Controller)
    → is_control path ≡ false
    → AllErrors c.state
    → (apply_request_chaos path c).1 ≡ true
unfolding apply_request_chaos
apply-injects path c plain errors = rw (plain, injects_always c.state errors) refl

module _ {A : Type 0} (one : ℤ) (second : ℕ) (route : Request → Service A → Service A × Ending)
    (is_error : ℕ → Bool) where
  -- The Auth service as a call finds it, with the request as it sees it there and the body that its
  -- answer has, if that is JSON.
  pub record Remote : Type 0 where
    pub metrics : Metrics
    pub service : Service A
    pub arrival : Arrival
    pub body : Option Json

  -- A POST /validate through the client; other requests leave the API's breaker alone meanwhile.
  pub validate_at :
      {S : Type 0} → Remote → Client → Vars → String → World S → World S × Outcome Json CallError
  validate_at r client vars token w =
      let ending = (serve one second route true r.arrival (r.metrics, r.service)).1 in
      (
        w,
        post_json is_error (λ method url headers. reply_of r.body ending) client vars "/validate"
            (obj (field "token" (str token) end)) [],
      )

  abbrev Injecting : Remote → Type 0
  Injecting r = AllErrors r.service.chaos.state × (r.arrival.call.path ≡ "/validate")

  finish-error :
      (body : Option Json)
      → is_error 500 ≡ true
      → finish is_error (Client.response 500 body) ≡ Protect.raised failure
  unfolding finish
  finish-error none bad = refl
  finish-error (some body) bad = rw bad refl

  validate_at-failed :
      {S : Type 0} (r : Remote) (client : Client) (vars : Vars) (token : String) (w : World S)
      → is_error 500 ≡ true
      → Injecting r
      → validate_at r client vars token w ≡ (w, Protect.raised failure)
  unfolding validate_at post_json is_control
  validate_at-failed r client vars token w bad (errors, path) =
      let counted : str_eq r.arrival.call.path "/metrics" ≡ false = rw path refl in
      let plain : is_control r.arrival.call.path ≡ false = rw path refl in
      let hit = apply-injects r.arrival.call.path r.service.chaos plain errors in
      let (ending, limiter, routes) =
        injected_before_limit one second route true r.arrival r.metrics r.service counted hit in
      rw ending (ap (λ o. (w, o)) (finish-error r.body bad))

  -- An order that is placed while the Auth service is as `r` says.
  pub record Placed : Type 0 where
    pub order : Order
    pub authorization : Option String
    pub entered : ℤ
    pub left : ℤ
    pub remote : Remote

  abbrev pub placed : {S : Type 0} → Client → Vars → Placed → Attempt S
  placed client vars p = record {
    order = p.order;
    authorization = p.authorization;
    entered = p.entered;
    left = p.left;
    call = validate_at p.remote client vars;
  }

  abbrev pub Doomed : Placed → Type 0
  Doomed p = (valid_order p.order ≡ true) × Injecting p.remote

  placed-Fails :
      {S : Type 0} (client : Client) (vars : Vars) (p : Placed)
      → is_error 500 ≡ true
      → Doomed p
      → Fails {S = S} (placed client vars p)
  placed-Fails client vars p bad (good, injecting) =
      (good, λ w. validate_at-failed p.remote client vars _ w bad injecting)

  each_placed-Fails :
      (S : Type 0) (client : Client) (vars : Vars) (orders : List Placed)
      → is_error 500 ≡ true
      → All Doomed orders
      → All (Fails {S = S}) (map (placed client vars) orders)
  each_placed-Fails S client vars [] bad doomed = tt
  each_placed-Fails S client vars (p ∷ orders) bad (doomed, rest) =
      (placed-Fails client vars p bad doomed, each_placed-Fails _ client vars orders bad rest)

  -- While chaos injects errors into every request of the Auth service, five valid orders one after
  -- the other, with no other request at the API's breaker between them, open that breaker, if it was
  -- CLOSED and had no failure counted: a valid order within 30 seconds after the fifth gets the 503
  -- of the open breaker, whatever its call would do. `raise_for_status` raises for a 500.
  pub injected_errors_shut_api :
      {S : Type 0} (st : BreakerStore S) (client : Client) (vars : Vars) (orders : List Placed)
      (last : Placed) (other : Attempt S) (w : World S)
      → is_error 500 ≡ true
      → All Doomed orders
      → Doomed last
      → length orders ≡ 4
      → (st.load w.stored).state ≡ closed
      → (st.load w.stored).failure_count ≡ 0
      → valid_order other.order ≡ true
      → other.entered -ℤ last.left <ℤ pos (30 * second)
      → let w' = submit_all st second (map (placed client vars) (orders ++ last ∷ [])) w in
        ((st.load w'.stored).state ≡ opened)
        × ((submit_one st second other w').1 ≡ unavailable "auth")
  injected_errors_shut_api st client vars orders last other w bad doomed doomed' four c z fine
        within =
      rw (map-append (placed client vars) orders (last ∷ [])) (
        failures_shut_api st second (map (placed client vars) orders) (placed client vars last)
          other w (each_placed-Fails _ client vars orders bad doomed)
          (placed-Fails client vars last bad doomed') c z
          (length-map orders (placed client vars) ∙ four) fine within)
