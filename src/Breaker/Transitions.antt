-- ===== src/Breaker/Transitions.antt =====
-- When the breaker opens, how long it rejects, and how it closes again.
use auto_sre.Prelude.{
  ℕ, zero, suc, ◌+◌, ◌≤◌, ◌<◌, ◌≡◌, refl, ◌≢◌, ◌⊎◌, inl, inr, Bool-cases, true, false, some, List,
  [], ◌∷◌, ◌++◌, map, arith, length, replicate,
}
use auto_sre.Prelude.Int.{ℤ, ◌-ℤ◌, ◌<ℤ◌, ◌≤ℤ◌, ltb_ℤ}
use auto_sre.Breaker.Defs.{closed, opened, half_open, BreakerStore, Config, World, new_record}
use auto_sre.Breaker.Methods.{state, allow, record_success, record_failure}
use auto_sre.Breaker.Invariant.{Op, allow_at, succeeded, failed_at, apply, run}

module _ {S : Type 0} (st : BreakerStore S) (cfg : Config) where
  pub failure_below :
      (now : ℤ) (w : World S)
      → let rec = st.load w.stored in
        let rec' = st.load (record_failure st cfg now w).stored in
        rec.state ≡ closed
        → rec.failure_count + 1 < cfg.failure_threshold
        → (rec'.state ≡ closed) × (rec'.failure_count ≡ rec.failure_count + 1)
  unfolding record_failure
  failure_below now w c h = grind (arith, st.load-save)

  -- A run of failures that stays below the threshold keeps the breaker CLOSED.
  failures_below :
      (times : List ℤ) (w : World S)
      → let rec = st.load w.stored in
        let rec' = st.load (run st cfg (map failed_at times) w).stored in
        rec.state ≡ closed
        → rec.failure_count + length times < cfg.failure_threshold
        → (rec'.state ≡ closed) × (rec'.failure_count ≡ rec.failure_count + length times)
  unfolding run apply
  failures_below [] w c h = (c, omega arith)
  failures_below (t ∷ times) w c h =
      let (c', n) = failure_below t w c (omega arith) in
      let ih = failures_below times (record_failure st cfg t w) c' (omega arith) in
      (ih.0, omega (arith, ih.1, n))

  pub last_failure :
      (now : ℤ) (w : World S)
      → let rec = st.load w.stored in
        let rec' = st.load (record_failure st cfg now w).stored in
        rec.state ≡ closed
        → cfg.failure_threshold ≤ rec.failure_count + 1
        → (rec'.state ≡ opened) × (rec'.opened_at ≡ some now)
  unfolding record_failure
  last_failure now w c h = grind (arith, st.load-save)

  run-append :
      (ops more : List Op) (w : World S)
      → run st cfg (ops ++ more) w ≡ run st cfg more (run st cfg ops w)
  unfolding run
  run-append [] more w = refl
  run-append (op ∷ ops) more w = run-append ops more (apply st cfg op w)

  -- From a CLOSED breaker with no failure counted, failures in a row that are fewer than the
  -- threshold leave it CLOSED, and the failure that makes them as many as the threshold opens it,
  -- at that failure's time.
  pub failures_open :
      (times : List ℤ) (last : ℤ) (w : World S)
      → let rec = st.load w.stored in
        let before = st.load (run st cfg (map failed_at times) w).stored in
        let after = st.load (run st cfg (map failed_at times ++ failed_at last ∷ []) w).stored in
        rec.state ≡ closed
        → rec.failure_count ≡ 0
        → length times + 1 ≡ cfg.failure_threshold
        → (before.state ≡ closed) × (after.state ≡ opened) × (after.opened_at ≡ some last)
  unfolding run apply
  failures_open times last w c z n =
      let (c', m) = failures_below times w c (omega arith) in
      let w' = run st cfg (map failed_at times) w in
      let (o, t) = last_failure last w' c' (omega arith) in
      rw (run-append (map failed_at times) (failed_at last ∷ []) w) (c', o, t)

  -- A breaker that opened at `t` admits a caller exactly when the recovery timeout has passed since
  -- `t`; a refusal changes nothing, and the caller that is admitted finds the breaker HALF_OPEN with
  -- no trial success counted.
  pub allow-opened :
      (now t : ℤ) (w : World S)
      → let rec = st.load w.stored in
        let (w', admitted) = allow st cfg now w in
        let rec' = st.load w'.stored in
        rec.state ≡ opened
        → rec.opened_at ≡ some t
        → ((now -ℤ t <ℤ cfg.recovery_timeout) × (admitted ≡ false) × (w' ≡ w))
          ⊎ ((cfg.recovery_timeout ≤ℤ now -ℤ t)
              × (admitted ≡ true)
              × (rec'.state ≡ half_open)
              × (rec'.success_count ≡ 0))
  unfolding allow
  allow-opened now t w o e = elim (Bool-cases (ltb_ℤ (now -ℤ t) cfg.recovery_timeout)) [
    | inl within ↦ inl (grind arith)
    | inr past ↦ inr (grind (arith, st.load-save))
  ]

  -- A caller is never refused in CLOSED or HALF_OPEN, and then nothing changes.
  pub allow_admits :
      (now : ℤ) (w : World S) → state st cfg w ≢ opened → allow st cfg now w ≡ (w, true)
  unfolding allow
  allow_admits now w h = ground arith

  pub success_below :
      (w : World S)
      → let rec = st.load w.stored in
        let rec' = st.load (record_success st cfg w).stored in
        rec.state ≡ half_open
        → rec.success_count + 1 < cfg.success_threshold
        → (rec'.state ≡ half_open) × (rec'.success_count ≡ rec.success_count + 1)
  unfolding record_success
  success_below w h b = grind (arith, st.load-save)

  pub last_success :
      (w : World S)
      → let rec = st.load w.stored in
        let rec' = st.load (record_success st cfg w).stored in
        rec.state ≡ half_open → cfg.success_threshold ≤ rec.success_count + 1 → rec' ≡ new_record
  unfolding record_success
  last_success w h b = grind (arith, st.load-save)

  -- As many successes as are missing close a HALF_OPEN breaker.
  successes_close :
      (missing : ℕ) (w : World S)
      → let rec = st.load w.stored in
        let rec' = st.load (run st cfg (replicate missing succeeded) w).stored in
        rec.state ≡ half_open
        → 0 < missing
        → rec.success_count + missing ≡ cfg.success_threshold
        → rec' ≡ new_record
  unfolding run apply
  successes_close zero w h p n = absurd (omega arith)
  successes_close (suc zero) w h p n = last_success w h (omega arith)
  successes_close (suc (suc missing)) w h p n =
      let (h', m) = success_below w h (omega arith) in
      successes_close (suc missing) (record_success st cfg w) h' (omega arith) (omega (arith, m))

  -- Once the recovery timeout has passed since it opened, a breaker recovers: the caller that is
  -- then admitted and `success_threshold` successes in a row bring the record back to its initial
  -- value, CLOSED with no failure counted.
  pub recovers :
      (now t : ℤ) (w : World S)
      → let rec = st.load w.stored in
        let ops = allow_at now ∷ replicate cfg.success_threshold succeeded in
        rec.state ≡ opened
        → rec.opened_at ≡ some t
        → cfg.recovery_timeout ≤ℤ now -ℤ t
        → 0 < cfg.success_threshold
        → st.load (run st cfg ops w).stored ≡ new_record
  unfolding run apply
  recovers now t w o e past hs = elim (allow-opened now t w o e) [
    | inl refused ↦ absurd (omega arith)
    | inr (_, _, h, z) ↦
        successes_close cfg.success_threshold (allow st cfg now w).0 h hs (omega (arith, z))
  ]

  -- A failure that is reported while the breaker is OPEN already, by a call that was let in before,
  -- starts the timeout anew and is counted as one more opening, if it brings the failure count to
  -- the threshold: no transition to OPEN has taken place.
  late_failure_reopens :
      (now : ℤ) (w : World S)
      → let rec = st.load w.stored in
        let w' = record_failure st cfg now w in
        let rec' = st.load w'.stored in
        rec.state ≡ opened
        → cfg.failure_threshold ≤ rec.failure_count + 1
        → (rec'.state ≡ opened)
          × (rec'.opened_at ≡ some now)
          × (w'.open_total ≡ w.open_total + 1)
          × (rec'.failure_count ≡ rec.failure_count + 1)
  unfolding record_failure
  late_failure_reopens now w o h = grind (arith, st.load-save)
