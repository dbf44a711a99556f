-- ===== src/Breaker/Protect.antt =====
-- A call under the breaker: `protect`, `guard` and `call` (they differ in being awaited only).
use auto_sre.Prelude.{
  ◌+◌, ◌≡◌, refl, sym, ◌∙◌, ◌⊎◌, Bool, true, false, some, arith, Bool-cases, inl, inr,
  if◌then◌else◌,
}
use auto_sre.Prelude.Int.{ℤ, ◌-ℤ◌, ◌<ℤ◌}
use auto_sre.Prelude.Text.{String}
use auto_sre.Breaker.Defs.{opened, BreakerStore, Config, World}
use auto_sre.Breaker.Methods.{allow, reject, record_success, record_failure, exit}

-- How the protected code, or the call as a whole, ends.
pub data Outcome (A E : Type 0) : Type 0 where
  returned : A → Outcome A E
  raised : E → Outcome A E

-- The exceptions: which of them are `expected_exceptions`, and `CircuitBreakerOpenError(name)`.
pub record Exceptions (E : Type 0) : Type 0 where
  pub expected : E → Bool
  pub open_error : String → E

module _ {S A E : Type 0} (st : BreakerStore S) (cfg : Config) (ex : Exceptions E) where
  -- The code after the `yield`: what the protected code did is recorded, and its exception raised
  -- again. An exception that is not expected passes by both clauses.
  settle : ℤ → World S × Outcome A E → World S × Outcome A E
  settle now (w, returned a) = (exit st cfg false now w, returned a)
  settle now (w, raised e) = (if ex.expected e then exit st cfg true now w else w, raised e)

  -- The body is what happens between the two ends of the call, to the breaker too: other calls
  -- may begin and end meanwhile. `entered` and `left` are the clock's readings at the ends.
  unfoldable pub protect :
      ℤ → ℤ → (World S → World S × Outcome A E) → World S → World S × Outcome A E
  unfolding settle
  protect entered left body w =
      let (w', admitted) = allow st cfg entered w in
      if admitted
      then settle left (body w')
      else (reject st cfg w', raised (ex.open_error cfg.name))

  -- While the recovery timeout runs, a call is refused with `CircuitBreakerOpenError` and the
  -- protected code is not run: whatever it is, only the counter of rejections changes.
  pub protect-opened :
      (entered left t : ℤ) (body : World S → World S × Outcome A E) (w : World S)
      → (st.load w.stored).state ≡ opened
      → (st.load w.stored).opened_at ≡ some t
      → entered -ℤ t <ℤ cfg.recovery_timeout
      → protect entered left body w
        ≡ (record w { rejections_total = w.rejections_total + 1 }, raised (ex.open_error cfg.name))
  unfolding protect allow reject
  protect-opened entered left t body w o e within = ground arith

  -- The breaker `w` after code that ended with `outcome` and left the breaker as `after`.
  abbrev pub Accounted : ℤ → World S → Outcome A E → World S → Type 0
  Accounted left after outcome w =
      ((a : A) × (outcome ≡ returned a) × (w ≡ record_success st cfg after))
      ⊎ ((e : E) × (outcome ≡ raised e)
          × (ex.expected e ≡ true)
          × (w ≡ record_failure st cfg left after))
      ⊎ ((e : E) × (outcome ≡ raised e) × (ex.expected e ≡ false) × (w ≡ after))

  settle-Accounted :
      (left : ℤ) (after : World S) (outcome : Outcome A E)
      → let (w, result) = settle left (after, outcome) in
        (result ≡ outcome) × Accounted left after outcome w
  unfolding settle exit
  settle-Accounted left after (returned a) = (refl, inl (a, refl, refl))
  settle-Accounted left after (raised e) = elim (Bool-cases (ex.expected e)) [
    | inl counted ↦ (refl, inr (inl (e, refl, counted, rw counted)))
    | inr passed ↦ (refl, inr (inr (e, refl, passed, rw passed)))
  ]

  -- A call that is admitted ends as the protected code ends, with its value or its exception. It
  -- counts as a success if the code returned, as a failure if it raised an expected exception, and
  -- not at all if it raised another one.
  pub protect_admitted :
      (entered left : ℤ) (body : World S → World S × Outcome A E) (w : World S)
      → (allow st cfg entered w).1 ≡ true
      → let (after, outcome) = body (allow st cfg entered w).0 in
        let (w', result) = protect entered left body w in
        (result ≡ outcome) × Accounted left after outcome w'
  unfolding protect
  protect_admitted entered left body w h =
      let (after, outcome) = body (allow st cfg entered w).0 in
      rw h (settle-Accounted left after outcome)

  pub protect_refused :
      (entered left : ℤ) (body : World S → World S × Outcome A E) (w : World S)
      → (allow st cfg entered w).1 ≡ false
      → (protect entered left body w).1 ≡ raised (ex.open_error cfg.name)
  unfolding protect
  protect_refused entered left body w h = rw h refl

  -- A value that a call returns is the value of the protected code, which was admitted.
  pub protect-returned :
      (entered left : ℤ) (body : World S → World S × Outcome A E) (w : World S) (a : A)
      → (protect entered left body w).1 ≡ returned a
      → ((allow st cfg entered w).1 ≡ true) × ((body (allow st cfg entered w).0).1 ≡ returned a)
  protect-returned entered left body w a e = elim (Bool-cases (allow st cfg entered w).1) [
    | inl admitted ↦ (admitted, sym (protect_admitted entered left body w admitted).0 ∙ e)
    | inr refused ↦ let shut = protect_refused entered left body w refused in grind arith
  ]

  -- An expected exception of the protected code counts as a failure at the time the call ends.
  pub protect_failed :
      (entered left : ℤ) (body : World S → World S × Outcome A E) (w : World S) (e : E)
      → (allow st cfg entered w).1 ≡ true
      → (body (allow st cfg entered w).0).1 ≡ raised e
      → ex.expected e ≡ true
      → protect entered left body w
        ≡ (record_failure st cfg left (body (allow st cfg entered w).0).0, raised e)
  unfolding protect settle exit
  protect_failed entered left body w e admitted failed counted =
      rw (admitted, settle, failed, counted) refl

  -- A value that the protected code returns counts as a success.
  pub protect_succeeded :
      (entered left : ℤ) (body : World S → World S × Outcome A E) (w : World S) (a : A)
      → (allow st cfg entered w).1 ≡ true
      → (body (allow st cfg entered w).0).1 ≡ returned a
      → protect entered left body w
        ≡ (record_success st cfg (body (allow st cfg entered w).0).0, returned a)
  unfolding protect settle exit
  protect_succeeded entered left body w a admitted done = rw (admitted, settle, done) refl
