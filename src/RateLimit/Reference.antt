-- ===== src/RateLimit/Reference.antt =====
-- The bucket as one imagines it: it is filled on every tick of the clock, up to the burst. The
-- program keeps the time of the last request in its place and fills the bucket when it is asked.
use auto_sre.Prelude.{
  ℕ, zero, suc, ◌≡◌, refl, sym, ◌∙◌, ap, Bool, true, false, List, [], ◌∷◌, arith, if◌then◌else◌,
  Bool-cases, inl, inr,
}
use auto_sre.Prelude.Int.{
  ℤ, pos, ◌+ℤ◌, ◌-ℤ◌, ◌*ℤ◌, ◌≤ℤ◌, leb_ℤ, min_ℤ, int_laws, eq_of_parts, +ℤ_parts, *ℤ_parts,
  zero-mul_ℤ, min-le_left,
}
use auto_sre.RateLimit.Bucket.{Bucket, take_tokens}

module _ (rps burst tokens : ℤ) where
  -- `n` ticks of the clock.
  unfoldable ticks : ℕ → ℤ → ℤ
  ticks zero held = held
  ticks (suc n) held = min_ℤ burst (ticks n held +ℤ rps)

  -- A request for `tokens`: the contents after it, and whether it is served.
  pub request : ℤ → ℤ × Bool
  request held = if leb_ℤ tokens held then (held -ℤ tokens, true) else (held, false)

  -- Requests after so many ticks each: what each is told, and the contents in the end.
  pub filled : List ℕ → ℤ → ℤ × List Bool
  filled [] held = (held, [])
  filled (n ∷ gaps) held =
      let (held', served) = request (ticks n held) in
      let (end, verdicts) = filled gaps held' in (end, served ∷ verdicts)

  -- The program's bucket, with the requests at those times.
  pub lazy : List ℕ → Bucket → Bucket × List Bool
  lazy [] b = (b, [])
  lazy (n ∷ gaps) b =
      let (b', result) = take_tokens rps burst (b.1 +ℤ pos n) tokens b in
      let (end, verdicts) = lazy gaps b' in (end, result.allowed ∷ verdicts)

  refill_tick :
      (held brought : ℤ)
      → pos 0 ≤ℤ rps
      → min_ℤ burst (min_ℤ burst (held +ℤ brought) +ℤ rps) ≡ min_ℤ burst (held +ℤ (brought +ℤ rps))
  refill_tick held brought r = eq_of_parts _ _ (
      ground (
        arith,
        +ℤ_parts held brought,
        +ℤ_parts (min_ℤ burst (held +ℤ brought)) rps,
        +ℤ_parts brought rps,
        +ℤ_parts held (brought +ℤ rps),
      ))

  one_more : (n : ℕ) → pos (suc n) *ℤ rps ≡ pos n *ℤ rps +ℤ rps
  one_more n = omega (int_laws, *ℤ_parts (pos (suc n)) rps, *ℤ_parts (pos n) rps)

  min_held :
      (held nothing : ℤ) → held ≤ℤ burst → nothing ≡ pos 0 → min_ℤ burst (held +ℤ nothing) ≡ held
  min_held held nothing h z = rw z (eq_of_parts _ _ (ground (arith, +ℤ_parts held (pos 0))))

  ticks-lazy :
      (n : ℕ) (held : ℤ)
      → pos 0 ≤ℤ rps
      → held ≤ℤ burst
      → ticks n held ≡ min_ℤ burst (held +ℤ pos n *ℤ rps)
  unfolding ticks
  ticks-lazy zero held r h = sym (min_held held (pos 0 *ℤ rps) h (zero-mul_ℤ rps))
  ticks-lazy (suc n) held r h =
      ap (λ x. min_ℤ burst (x +ℤ rps)) (ticks-lazy n held r h)
      ∙ refill_tick held (pos n *ℤ rps) r
      ∙ ap (λ x. min_ℤ burst (held +ℤ x)) (sym (one_more n))

  -- What the program computes of a bucket is what the ticks have made of it.
  take_tokens-ticks :
      (n : ℕ) (b : Bucket)
      → pos 0 ≤ℤ rps
      → b.0 ≤ℤ burst
      → let (b', result) = take_tokens rps burst (b.1 +ℤ pos n) tokens b in
        (b'.0, result.allowed) ≡ request (ticks n b.0)
  unfolding take_tokens request
  take_tokens-ticks n (held, last) r h =
      let gap : last +ℤ pos n -ℤ last ≡ pos n = omega int_laws in
      rw (gap, ← ticks-lazy n held r h) (ground arith)

  request_capped : (held : ℤ) → pos 0 ≤ℤ tokens → held ≤ℤ burst → (request held).0 ≤ℤ burst
  unfolding request
  request_capped held t h = elim (Bool-cases (leb_ℤ tokens held)) [
    | inl enough ↦ rw enough (omega int_laws)
    | inr short ↦ rw short h
  ]

  ticks_capped : (n : ℕ) (held : ℤ) → held ≤ℤ burst → ticks n held ≤ℤ burst
  unfolding ticks
  ticks_capped zero held h = h
  ticks_capped (suc n) held h = min-le_left burst (ticks n held +ℤ rps)

  -- From a bucket that holds no more than the burst, with a rate and a number of tokens that are not
  -- negative, the program's bucket serves exactly the requests that the bucket filled on every tick
  -- serves, and it holds as much in the end.
  pub lazy-filled :
      (gaps : List ℕ) (b : Bucket)
      → pos 0 ≤ℤ rps
      → pos 0 ≤ℤ tokens
      → b.0 ≤ℤ burst
      → let (b', verdicts) = lazy gaps b in (b'.0, verdicts) ≡ filled gaps b.0
  unfolding lazy filled
  lazy-filled [] b r t h = refl
  lazy-filled (n ∷ gaps) b r t h =
      let (b', result) = take_tokens rps burst (b.1 +ℤ pos n) tokens b in
      let step = take_tokens-ticks n b r h in
      let ih =
        lazy-filled gaps b' r t
          (rw (ap (λ p. p.0) step) (request_capped (ticks n b.0) t (ticks_capped n b.0 h))) in
      ap (λ p. (p.0, result.allowed ∷ p.1)) ih
      ∙ ap (λ p. ((filled gaps p.0).0, p.1 ∷ (filled gaps p.0).1)) step
