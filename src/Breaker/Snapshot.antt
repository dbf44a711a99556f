-- ===== src/Breaker/Snapshot.antt =====
-- `CircuitBreaker.snapshot` and `GET /breaker/status`.
use auto_sre.Prelude.{
  ℕ, ◌≡◌, refl, ◌∙◌, ap, ◌⊎◌, inl, inr, false, Option, none, some, List, [], ◌∷◌, arith, Bool-cases,
  if◌then◌else◌,
}
use auto_sre.Prelude.Int.{ℤ, pos, ◌-ℤ◌, ◌≤ℤ◌, ltb_ℤ, max_ℤ}
use auto_sre.Prelude.Text.{String}
use auto_sre.Breaker.Defs.{is_opened, state_text, BreakerStore, Config, World}
use auto_sre.Breaker.Methods.{allow}

-- The dictionary, with `config` as the breaker's configuration.
pub record Snapshot : Type 0 where
  pub name : String
  pub state : String
  pub failure_count : ℕ
  pub success_count : ℕ
  pub seconds_until_half_open : Option ℤ
  pub config : Config

max_nonneg : (x : ℤ) → pos 0 ≤ℤ max_ℤ (pos 0) x
max_nonneg x = ground arith

elapsed_zero : (timeout d : ℤ) → timeout ≤ℤ d → max_ℤ (pos 0) (timeout -ℤ d) ≡ pos 0
unfolding ◌-ℤ◌
elapsed_zero timeout d h = ground arith

-- `round2` is `round(_, 2)` on the numbers of the clock.
module _ {S : Type 0} (st : BreakerStore S) (round2 : ℤ → ℤ) where
  remaining : Config → ℤ → Option ℤ → Option ℤ
  remaining cfg now none = none
  remaining cfg now (some t) = some (round2 (max_ℤ (pos 0) (cfg.recovery_timeout -ℤ (now -ℤ t))))

  pub snapshot : Config → ℤ → World S → Snapshot
  unfolding remaining
  snapshot cfg now w =
      let rec = st.load w.stored in
      record {
        name = cfg.name;
        state = state_text rec.state;
        failure_count = rec.failure_count;
        success_count = rec.success_count;
        seconds_until_half_open =
            if is_opened rec.state then remaining cfg now rec.opened_at else none;
        config = cfg;
      }

  -- `breaker_status`, over `all_breakers()`.
  unfoldable breaker_status : ℤ → List (Config × World S) → List Snapshot
  breaker_status now [] = []
  breaker_status now ((cfg, w) ∷ breakers) = snapshot cfg now w ∷ breaker_status now breakers

  -- With a rounding that keeps 0 and never turns a positive number into a negative one: of a breaker
  -- that opened at `t` the snapshot gives a waiting time of 0 or more, and gives 0 whenever a caller
  -- at that moment is admitted; of a breaker that is not OPEN it gives none.
  snapshot-allow :
      (cfg : Config) (now t : ℤ) (w : World S)
      → round2 (pos 0) ≡ pos 0
      → ((x : ℤ) → pos 0 ≤ℤ x → pos 0 ≤ℤ round2 x)
      → (st.load w.stored).opened_at ≡ some t
      → let seconds = (snapshot cfg now w).seconds_until_half_open in
        ((is_opened (st.load w.stored).state ≡ false) × (seconds ≡ none))
        ⊎ ((r : ℤ) × (seconds ≡ some r)
            × (pos 0 ≤ℤ r)
            × (((allow st cfg now w).1 ≡ false) ⊎ (r ≡ pos 0)))
  unfolding snapshot allow
  snapshot-allow cfg now t w zero_kept sign_kept e =
      elim (Bool-cases (is_opened (st.load w.stored).state)) [
        | inr shut ↦ inl (shut, rw shut)
        | inl o ↦
            let d = now -ℤ t in
            let left = max_ℤ (pos 0) (cfg.recovery_timeout -ℤ d) in
            inr (
              round2 left,
              rw (o, e, remaining) refl,
              sign_kept left (max_nonneg (cfg.recovery_timeout -ℤ d)),
              elim (Bool-cases (ltb_ℤ d cfg.recovery_timeout)) [
                | inl within ↦ inl (grind arith)
                | inr past ↦
                    inr (ap round2 (elapsed_zero cfg.recovery_timeout d (ground arith)) ∙ zero_kept)
              ],
            )
      ]
