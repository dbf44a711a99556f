-- ===== src/Orders/Recovery.antt =====
-- How the API's breaker for the Auth service closes again once calls succeed.
use auto_sre.Prelude.{ℕ, ◌*◌, ◌≡◌, ◌≢◌, refl, sym, ◌∙◌, ap, true, some, arith, inl, inr}
use auto_sre.Prelude.Int.{ℤ, pos, ◌-ℤ◌, ◌≤ℤ◌}
use auto_sre.Storage.Json.{Fields, obj, get}
use auto_sre.Breaker.{
  opened, half_open, new_record, BreakerStore, World, allow, state, record_success,
}
use auto_sre.Breaker.Transitions.{allow-opened, allow_admits, success_below, last_success}
use auto_sre.Breaker.Protect.{returned, protect_succeeded}
use auto_sre.Orders.Token.{order_token}
use auto_sre.Orders.Create.{call_errors, auth_breaker, valid_order, created, is_valid, answer}
use auto_sre.Orders.Outage.{Attempt, submit_one, submit_one-valid}

-- The call returns a result that says that the token is valid.
abbrev pub Succeeds : {S : Type 0} → Attempt S → Type 0
Succeeds {S} a =
    (valid_order a.order ≡ true)
    × ((result : Fields) × (is_valid (get "valid" result) ≡ true)
        × ((w : World S) → a.call (order_token a.authorization) w ≡ (w, returned (obj result))))

trial_not_opened : half_open ≢ opened
trial_not_opened h = grind arith

module _ {S : Type 0} (st : BreakerStore S) (second : ℕ) where
  submit_one-succeeded :
      (a : Attempt S) (w : World S)
      → Succeeds a
      → (allow st (auth_breaker second) a.entered w).1 ≡ true
      → submit_one st second a w ≡ (
        record_success st (auth_breaker second) (allow st (auth_breaker second) a.entered w).0,
        created a.order,
      )
  unfolding answer
  submit_one-succeeded a w (good, (result, valid, works)) admitted =
      let entered = (allow st (auth_breaker second) a.entered w).0 in
      let done =
        protect_succeeded st (auth_breaker second) call_errors a.entered a.left
          (a.call (order_token a.authorization)) w (obj result) admitted
          (ap (λ p. p.1) (works entered)) in
      let same = ap (λ p. p.0) (works entered) in
      let shown : answer a.order (returned (obj result)) ≡ created a.order = rw valid refl in
      submit_one-valid st second a w good
      ∙ ap (λ p. (p.0, answer a.order p.1)) done
      ∙ ap
          (λ v. (record_success st (auth_breaker second) v, answer a.order (returned (obj result))))
          same
      ∙ ap (λ o. (record_success st (auth_breaker second) entered, o)) shown

  -- Once 30 seconds have passed since the API's breaker opened, two valid orders one after the other,
  -- with no other request at the breaker between them, whose calls say that their tokens are valid
  -- are both created, and the breaker is as new after them, CLOSED with no failure counted.
  pub successes_reopen_api :
      (first next : Attempt S) (opening : ℤ) (w : World S)
      → Succeeds first
      → Succeeds next
      → (st.load w.stored).state ≡ opened
      → (st.load w.stored).opened_at ≡ some opening
      → pos (30 * second) ≤ℤ first.entered -ℤ opening
      → let (w', reply) = submit_one st second first w in
        let (w'', reply') = submit_one st second next w' in
        (reply ≡ created first.order)
        × (reply' ≡ created next.order)
        × (st.load w''.stored ≡ new_record)
  successes_reopen_api first next opening w works works' o t past =
      elim (allow-opened st (auth_breaker second) first.entered opening w o t) [
        | inl (within, _, _) ↦ absurd (omega arith)
        | inr (_, admitted, trial, none_yet) ↦
            let w0 = (allow st (auth_breaker second) first.entered w).0 in
            let made = submit_one-succeeded first w works admitted in
            let (still, counted) =
              success_below st (auth_breaker second) w0 trial (omega (arith, none_yet)) in
            let w1 = record_success st (auth_breaker second) w0 in
            let open' : state st (auth_breaker second) w1 ≢ opened =
              λ h. trial_not_opened (sym still ∙ h) in
            let let_in = allow_admits st (auth_breaker second) next.entered w1 open' in
            let made' = submit_one-succeeded next w1 works' (ap (λ p. p.1) let_in) in
            let fresh =
              last_success st (auth_breaker second) w1 still (omega (arith, none_yet, counted)) in
            rw (made, made', let_in) (refl, refl, fresh)
      ]
