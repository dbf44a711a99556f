-- ===== src/Chaos/Errors.antt =====
-- The error decisions of `ChaosState.should_inject_error` (shared/autosre_shared/chaos.py) over many
-- requests, with the rounding of its float accumulator.
use auto_sre.Prelude.{
  ℕ, zero, suc, ◌+◌, ◌*◌, ◌-◌, ◌≤◌, ◌≡◌, ap, Bool, true, false, arith, if◌then◌else◌,
}
use auto_sre.Chaos.State.{ChaosState, inject_rounded}

module _ (round : ℕ → ℕ) (one : ℕ) where
  -- The state after `n` decisions, and how many of them injected an error.
  unfoldable pub decide : ℕ → ChaosState → ChaosState × ℕ
  decide zero s = (s, 0)
  decide (suc n) s =
      let (s', hit) = inject_rounded round one s in
      let (s'', hits) = decide n s' in (s'', if hit then suc hits else hits)

  -- A rounded sum of at most 2.0 is off by `eps` units at most, 1.0 and 2.0 are floats, and the difference of a float
  -- from 1.0 to 2.0 and 1.0 is exact.
  module _ (eps : ℕ) (near : (x : ℕ) → x ≤ one + one → (round x ≤ x + eps) × (x ≤ round x + eps))
      (up_to_two : (x : ℕ) → x ≤ one + one → round x ≤ one + one)
      (exact : (x : ℕ)
        → one ≤ round x
        → round x ≤ one + one
        → round (round x - one) ≡ round x - one) where
    -- What one decision leaves: the sum of what was injected and what is left is off by the rounding.
    decision_near :
        (s : ChaosState)
        → s.error_enabled ≡ true
        → s.error_rate ≤ one
        → s.error_accumulator ≤ one
        → let (s', hit) = inject_rounded round one s in
          let injected = if hit then one else 0 in
          (s'.error_enabled ≡ true)
          × (s'.error_rate ≡ s.error_rate)
          × (s'.error_accumulator ≤ one)
          × (injected + s'.error_accumulator ≤ s.error_accumulator + s.error_rate + eps)
          × (s.error_accumulator + s.error_rate ≤ injected + s'.error_accumulator + eps)
    decision_near s e r a =
        let x = s.error_accumulator + s.error_rate in
        let small : x ≤ one + one = omega (arith, r, a) in
        let (above, below) = near x small in
        let bounded = up_to_two x small in let left = exact x in ground arith

    decide_near :
        (n : ℕ) (s : ChaosState)
        → s.error_enabled ≡ true
        → s.error_rate ≤ one
        → s.error_accumulator ≤ one
        → let (s', hits) = decide n s in
          (s'.error_accumulator ≤ one)
          × (hits * one + s'.error_accumulator ≤ s.error_accumulator + n * s.error_rate + n * eps)
          × (s.error_accumulator + n * s.error_rate ≤ hits * one + s'.error_accumulator + n * eps)
    unfolding decide
    decide_near zero s e r a = (a, omega arith, omega arith)
    decide_near (suc n) s e r a =
        let (s', hit) = inject_rounded round one s in
        let (e', r', a', above, below) = decision_near s e r a in
        let (a'', above', below') = decide_near n s' e' (rw r' r) a' in
        let same = ap (λ (t : ℕ). n * t) r' in
        let (most, least) = one_more hit _ _ _ _ _ _ _ above below same above' below' in
        (a'', most, least)
      where
        one_more :
            (hit : Bool) (hits left a' a r n nr : ℕ)
            → (if hit then one else 0) + a' ≤ a + r + eps
            → a + r ≤ (if hit then one else 0) + a' + eps
            → nr ≡ n * r
            → hits * one + left ≤ a' + nr + n * eps
            → a' + nr ≤ hits * one + left + n * eps
            → ((if hit then suc hits else hits) * one + left ≤ a + suc n * r + suc n * eps)
              × (a + suc n * r ≤ (if hit then suc hits else hits) * one + left + suc n * eps)
        one_more true hits left a' a r n nr above below same above' below' =
            (omega arith, omega arith)
        one_more false hits left a' a r n nr above below same above' below' =
            (omega arith, omega arith)

    -- With errors enabled at a rate of at most 100 %, `n` requests in a row from an accumulator `a` of
    -- at most 1.0 get as many injected errors as the float of the rate adds up to, but for the rounding
    -- of each sum by at most `eps` and for what is left in the accumulator: their number is at most
    -- `a + n * rate + n * eps`, and their number and one more is at least `a + n * rate - n * eps`. Of
    -- the floats it is taken that a sum of at most 2.0 is off by `eps` at most and not rounded above
    -- 2.0, and that 1.0 comes off a float between 1.0 and 2.0 exactly.
    pub errors_evenly_spread :
        (n : ℕ) (s : ChaosState)
        → s.error_enabled ≡ true
        → s.error_rate ≤ one
        → s.error_accumulator ≤ one
        → let hits = (decide n s).1 in
          (hits * one ≤ s.error_accumulator + n * s.error_rate + n * eps)
          × (s.error_accumulator + n * s.error_rate ≤ suc hits * one + n * eps)
    errors_evenly_spread n s e r a =
        let (left, above, below) = decide_near n s e r a in (omega arith, omega arith)
