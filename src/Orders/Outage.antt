-- ===== src/Orders/Outage.antt =====
-- What orders do to the API's breaker for the Auth service while their calls to it fail.
use auto_sre.Prelude.{
  ℕ, ◌+◌, ◌*◌, ◌<◌, ◌≡◌, refl, ◌∙◌, ap, true, Option, List, [], ◌∷◌, ◌++◌, All, arith, length,
}
use auto_sre.Prelude.Int.{ℤ, pos, ◌-ℤ◌, ◌<ℤ◌}
use auto_sre.Prelude.Text.{String}
use auto_sre.Storage.Json.{Json}
use auto_sre.Breaker.{closed, opened, BreakerStore, Config, World, allow, record_failure}
use auto_sre.Breaker.Transitions.{failure_below, last_failure}
use auto_sre.Breaker.Protect.{Outcome, raised, protect, protect-opened, protect_failed}
use auto_sre.Orders.Token.{order_token}
use auto_sre.Orders.Create.{
  CallError, failure, call_errors, auth_breaker, Order, valid_order, Answer, bad_gateway,
  unavailable, answer, create_order,
}

-- One order: its fields, its token, the clock's readings at the ends of its call, and what the call
-- does.
pub record Attempt (S : Type 0) : Type 0 where
  pub order : Order
  pub authorization : Option String
  pub entered : ℤ
  pub left : ℤ
  pub call : String → World S → World S × Outcome Json CallError

-- The call ends in an exception, and no other request touches the breaker meanwhile.
abbrev pub Fails : {S : Type 0} → Attempt S → Type 0
Fails {S} a =
    (valid_order a.order ≡ true)
    × ((w : World S) → a.call (order_token a.authorization) w ≡ (w, raised failure))

module _ {S : Type 0} (st : BreakerStore S) (second : ℕ) where
  abbrev pub submit_one : Attempt S → World S → World S × Answer
  submit_one a w = create_order st second a.call a.entered a.left a.order a.authorization w

  pub submit_all : List (Attempt S) → World S → World S
  submit_all [] w = w
  submit_all (a ∷ attempts) w = submit_all attempts (submit_one a w).0

  pub submit_one-valid :
      (a : Attempt S) (w : World S)
      → valid_order a.order ≡ true
      → let (w', ended) =
          protect st
            (auth_breaker second)
            call_errors
            a.entered
            a.left
            (a.call (order_token a.authorization))
            w in
        submit_one a w ≡ (w', answer a.order ended)
  unfolding create_order
  submit_one-valid a w good = rw good refl

  allow-closed :
      (cfg : Config) (now : ℤ) (w : World S)
      → (st.load w.stored).state ≡ closed
      → allow st cfg now w ≡ (w, true)
  unfolding allow
  allow-closed cfg now w c = rw c refl

  submit_one-failed :
      (a : Attempt S) (w : World S)
      → Fails a
      → (st.load w.stored).state ≡ closed
      → submit_one a w ≡ (record_failure st (auth_breaker second) a.left w, bad_gateway)
  unfolding answer
  submit_one-failed a w (good, fails) c =
      let shut = allow-closed (auth_breaker second) a.entered w c in
      let entered = (allow st (auth_breaker second) a.entered w).0 in
      let failed =
        protect_failed st (auth_breaker second) call_errors a.entered a.left
          (a.call (order_token a.authorization)) w failure (ap (λ p. p.1) shut)
          (ap (λ p. p.1) (fails entered)) refl in
      let same = ap (λ p. p.0) (fails entered) ∙ ap (λ p. p.0) shut in
      submit_one-valid a w good
      ∙ ap (λ p. (p.0, answer a.order p.1))
          (failed
            ∙ ap (λ q. (record_failure st (auth_breaker second) a.left q, raised failure)) same)

  submit_all-append :
      (attempts : List (Attempt S)) (last : Attempt S) (w : World S)
      → submit_all (attempts ++ last ∷ []) w ≡ (submit_one last (submit_all attempts w)).0
  unfolding submit_all
  submit_all-append [] last w = refl
  submit_all-append (a ∷ attempts) last w = submit_all-append attempts last (submit_one a w).0

  submit_all_below :
      (attempts : List (Attempt S)) (w : World S)
      → All Fails attempts
      → (st.load w.stored).state ≡ closed
      → (st.load w.stored).failure_count + length attempts < 5
      → let rec' = st.load (submit_all attempts w).stored in
        (rec'.state ≡ closed)
        × (rec'.failure_count ≡ (st.load w.stored).failure_count + length attempts)
  unfolding submit_all
  submit_all_below [] w fails c h = (c, omega arith)
  submit_all_below (a ∷ attempts) w (fails, rest) c h =
      let made = submit_one-failed a w fails c in
      let w' = record_failure st (auth_breaker second) a.left w in
      let (c', n) = failure_below st (auth_breaker second) a.left w c (omega arith) in
      let (kept, counted) = submit_all_below attempts w' rest c' (omega (arith, n)) in
      rw (submit_all, made) (kept, omega (arith, counted, n))

  -- From a CLOSED breaker with no failure counted, five orders one after the other whose calls to the
  -- Auth service fail open the API's breaker: an order within the recovery timeout of 30 seconds
  -- after the fifth, whatever its call would do, gets the 503 of the open breaker.
  pub failures_shut_api :
      (attempts : List (Attempt S)) (last other : Attempt S) (w : World S)
      → All Fails attempts
      → Fails last
      → (st.load w.stored).state ≡ closed
      → (st.load w.stored).failure_count ≡ 0
      → length attempts ≡ 4
      → valid_order other.order ≡ true
      → other.entered -ℤ last.left <ℤ pos (30 * second)
      → let w' = submit_all (attempts ++ last ∷ []) w in
        ((st.load w'.stored).state ≡ opened) × ((submit_one other w').1 ≡ unavailable "auth")
  unfolding answer
  failures_shut_api attempts last other w fails fails' c z four fine within =
      let before = submit_all attempts w in
      let (c', n) = submit_all_below attempts w fails c (omega arith) in
      let w' = record_failure st (auth_breaker second) last.left before in
      let final =
        submit_all-append attempts last w
        ∙ ap (λ p. p.0) (submit_one-failed last before fails' c') in
      let (o, t) = last_failure st (auth_breaker second) last.left before c' (omega (arith, n)) in
      let shut =
        protect-opened st (auth_breaker second) call_errors other.entered other.left last.left
          (other.call (order_token other.authorization)) w' o t within in
      let made = submit_one-valid other w' fine in
      rw final (o, ap (λ p. p.1) made ∙ ap (λ p. answer other.order p.1) shut)
