-- ===== src/Golang/Results.antt =====
-- What one more result adds to the counters of the network daemon.
use auto_sre.Prelude.{
  ℕ, ◌+◌, ◌≤◌, ◌≡◌, refl, Bool, true, false, ◌&&◌, Option, none, some, [], ◌∷◌, ◌++◌, arith,
  if◌then◌else◌,
}
use auto_sre.Prelude.Text.{String, str_eq}
use auto_sre.Golang.Prober.{
  Failure, Result, HttpOutcome, not_made, failed, answered, Metrics, new_result, http_check,
  count_result,
}
use auto_sre.Golang.Counts.{tally, count, count-append, and_true}

abbrev pub InOrder : String → String → Metrics → Type 0
InOrder target check m =
    (count target check m.timeouts ≤ count target check m.failures)
    × (count target check m.failures ≤ count target check m.requests)

abbrev is_error : {E : Type 0} → Option (Failure E) → Bool
is_error none = false
is_error (some e) = true

module _ {E : Type 0} (is_timeout : E → Bool) where
  -- A check times out only if it fails.
  abbrev pub IsSound : Result E → Type 0
  IsSound r = r.err ≡ none → r.timed_out ≡ false

  pub new_result-IsSound : (latency : ℕ) (e : Option E) → IsSound (new_result is_timeout latency e)
  unfolding new_result
  new_result-IsSound latency none h = refl
  new_result-IsSound latency (some e) h = grind arith

  pub http_check-IsSound :
      (latency : ℕ) (o : HttpOutcome E) → IsSound (http_check is_timeout latency o).0
  unfolding http_check new_result
  http_check-IsSound latency (not_made e) h = refl
  http_check-IsSound latency (failed e) h = grind arith
  http_check-IsSound latency (answered status) h = ground arith

  -- What one more result adds to the three counters of a check.
  count_result-count :
      (target check t c : String) (r : Result E) (m : Metrics)
      → let m' = count_result is_timeout t c r m in
        let hit = str_eq t target && str_eq c check in
        (count target check m'.requests ≡ count target check m.requests + tally hit)
        × (count target check m'.failures
            ≡ count target check m.failures + tally (hit && is_error r.err))
        × (count target check m'.timeouts
            ≡ count target check m.timeouts + tally (hit && r.timed_out))
  unfolding count_result
  count_result-count target check t c r m =
      let failed_too = failures_grow r.err in
      let late = timeouts_grow r.timed_out in
      (count-append target check t c m.requests, failed_too, late)
    where
      failures_grow :
          (e : Option (Failure E))
          → count target check (elim e [ none ↦ m.failures | some x ↦ m.failures ++ (t, c) ∷ [] ])
            ≡ count target check m.failures
              + tally ((str_eq t target && str_eq c check) && is_error e)
      failures_grow none = ground arith
      failures_grow (some e) = omega (
        arith,
        count-append target check t c m.failures,
        and_true (str_eq t target && str_eq c check),
      )

      timeouts_grow :
          (b : Bool)
          → count target check (if b then m.timeouts ++ (t, c) ∷ [] else m.timeouts)
            ≡ count target check m.timeouts + tally ((str_eq t target && str_eq c check) && b)
      timeouts_grow false = ground arith
      timeouts_grow true = omega (
        arith,
        count-append target check t c m.timeouts,
        and_true (str_eq t target && str_eq c check),
      )

  tally_sound :
      (hit : Bool) (r : Result E)
      → IsSound r
      → tally (hit && r.timed_out) ≤ tally (hit && is_error r.err)
  tally_sound false r sound = omega arith
  tally_sound true r sound = go r.err r.timed_out sound
    where
      go :
          (e : Option (Failure E)) (b : Bool)
          → (e ≡ none → b ≡ false)
          → tally b ≤ tally (is_error e)
      go none b h = rw (h refl) (omega arith)
      go (some e) true h = omega arith
      go (some e) false h = omega arith

  tally_le : (hit b : Bool) → tally (hit && b) ≤ tally hit
  tally_le true true = omega arith
  tally_le true false = omega arith
  tally_le false b = omega arith

  pub count_result-InOrder :
      (target check t c : String) (r : Result E) (m : Metrics)
      → IsSound r
      → InOrder target check m
      → InOrder target check (count_result is_timeout t c r m)
  count_result-InOrder target check t c r m sound (late, bad) =
      let hit = str_eq t target && str_eq c check in
      let (requests, failures, timeouts) = count_result-count target check t c r m in
      (omega (arith, tally_sound hit r sound), omega (arith, tally_le hit (is_error r.err)))
  -- A result of another check leaves the number of a check as it was.
