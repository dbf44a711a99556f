-- ===== src/RateLimit/Potential.antt =====
-- What the bucket of a client can give (`InMemoryBucketStore.consume` of
-- shared/autosre_shared/resilience/rate_limiter.py), and what one decision takes from it.
use auto_sre.Prelude.{
  ◌≡◌, ap, ◌∙◌, true, false, Option, none, some, arith, if◌then◌else◌, Bool-cases, inl, inr,
}
use auto_sre.Prelude.Int.{
  ℤ, pos, ◌+ℤ◌, ◌-ℤ◌, ◌*ℤ◌, ◌≤ℤ◌, leb_ℤ, ltb_ℤ, min_ℤ, int_laws, *ℤ_split, *ℤ_nonneg, -ℤ_self_mul,
  min-le_left, min-le_right, min_nonneg, leb→≤ℤ, -ℤ_nonneg, +ℤ_nonneg,
}
use auto_sre.Prelude.Text.{String, str_eq, eq_iff}
use auto_sre.RateLimit.Bucket.{
  RateLimitResult, Bucket, Buckets, find, or_full, take_tokens, consume, find-put,
}

abbrev pub grant : ℤ → RateLimitResult → ℤ
grant tokens result = if result.allowed then tokens else pos 0

module _ (rps burst tokens : ℤ) where
  -- The tokens of a bucket at a time, as `consume` counts them: never more than the burst.
  abbrev pub refilled : ℤ → Bucket → ℤ
  refilled now (held, last) = min_ℤ burst (held +ℤ (now -ℤ last) *ℤ rps)

  -- What a client's bucket can give at the time `t`.
  abbrev pub potential : ℤ → Option Bucket → ℤ
  potential t none = burst
  potential t (some b) = refilled t b

  abbrev pub IsFilled : Option Bucket → Type 0
  IsFilled none = Unit {0}
  IsFilled (some (held, last)) = pos 0 ≤ℤ held

  abbrev pub IsPast : ℤ → Option Bucket → Type 0
  IsPast t none = Unit {0}
  IsPast t (some (held, last)) = last ≤ℤ t

  -- One decision takes no more from the bucket than it could give.
  pub take_tokens_bound :
      (now : ℤ) (b : Bucket)
      → let (b', result) = take_tokens rps burst now tokens b in
        grant tokens result +ℤ b'.0 ≤ℤ refilled now b
  unfolding take_tokens
  take_tokens_bound now b = elim (Bool-cases (leb_ℤ tokens (refilled now b))) [
    | inl enough ↦ rw enough (omega int_laws)
    | inr short ↦ rw short (omega int_laws)
  ]

  pub take_tokens_time : (now : ℤ) (b : Bucket) → (take_tokens rps burst now tokens b).0.1 ≡ now
  unfolding take_tokens
  take_tokens_time now b = ground arith

  pub take_tokens_filled :
      (now : ℤ) (b : Bucket)
      → pos 0 ≤ℤ burst
      → pos 0 ≤ℤ rps
      → pos 0 ≤ℤ b.0
      → b.1 ≤ℤ now
      → pos 0 ≤ℤ (take_tokens rps burst now tokens b).0.0
  unfolding take_tokens
  take_tokens_filled now b hb hr hf hp =
      let brought = *ℤ_nonneg (now -ℤ b.1) rps (-ℤ_nonneg now b.1 hp) hr in
      let some_left =
        min_nonneg burst (b.0 +ℤ (now -ℤ b.1) *ℤ rps) hb
          (+ℤ_nonneg b.0 ((now -ℤ b.1) *ℤ rps) hf brought) in
      elim (Bool-cases (leb_ℤ tokens (refilled now b))) [
        | inl enough ↦
            rw enough (-ℤ_nonneg (refilled now b) tokens (leb→≤ℤ tokens (refilled now b) enough))
        | inr short ↦ rw short some_left
      ]

  min_later :
      (cap x y more : ℤ) → y ≤ℤ x +ℤ more → pos 0 ≤ℤ more → min_ℤ cap y ≤ℤ min_ℤ cap x +ℤ more
  min_later cap x y more h k = elim (Bool-cases (ltb_ℤ x cap)) [
    | inl under ↦ rw under (omega (int_laws, min-le_right cap y))
    | inr over ↦ rw over (omega (int_laws, min-le_left cap y))
  ]

  pub potential_later :
      (t now : ℤ) (o : Option Bucket)
      → pos 0 ≤ℤ rps
      → t ≤ℤ now
      → potential now o ≤ℤ potential t o +ℤ (now -ℤ t) *ℤ rps
  potential_later t now none hr h =
      let brought = *ℤ_nonneg (now -ℤ t) rps (-ℤ_nonneg now t h) hr in omega (int_laws, brought)
  potential_later t now (some (held, last)) hr h =
      let brought = *ℤ_nonneg (now -ℤ t) rps (-ℤ_nonneg now t h) hr in
      min_later burst (held +ℤ (t -ℤ last) *ℤ rps) (held +ℤ (now -ℤ last) *ℤ rps)
        ((now -ℤ t) *ℤ rps) (let split = *ℤ_split last t now rps in omega (int_laws, split)) brought

  -- What a decision grants and what it leaves, against what the client's bucket could give.
  pub served_bound :
      (now : ℤ) (o : Option Bucket)
      → let (b', result) = take_tokens rps burst now tokens (or_full burst now o) in
        grant tokens result +ℤ b'.0 ≤ℤ potential now o
  served_bound now none =
      let full = min-le_left burst (burst +ℤ (now -ℤ now) *ℤ rps) in
      omega (int_laws, take_tokens_bound now (burst, now), full)
  served_bound now (some b) = take_tokens_bound now b

  pub served_filled :
      (t now : ℤ) (o : Option Bucket)
      → pos 0 ≤ℤ burst
      → pos 0 ≤ℤ rps
      → t ≤ℤ now
      → IsFilled o
      → IsPast t o
      → pos 0 ≤ℤ (take_tokens rps burst now tokens (or_full burst now o)).0.0
  served_filled t now none hb hr h f p = take_tokens_filled now (burst, now) hb hr hb (omega arith)
  served_filled t now (some b) hb hr h f p = take_tokens_filled now b hb hr f (omega arith)

  pub potential_nonneg :
      (t : ℤ) (o : Option Bucket)
      → pos 0 ≤ℤ burst
      → pos 0 ≤ℤ rps
      → IsFilled o
      → IsPast t o
      → pos 0 ≤ℤ potential t o
  potential_nonneg t none hb hr f p = hb
  potential_nonneg t (some (held, last)) hb hr f p =
      let brought = *ℤ_nonneg (t -ℤ last) rps (-ℤ_nonneg t last p) hr in
      min_nonneg burst (held +ℤ (t -ℤ last) *ℤ rps) hb
        (+ℤ_nonneg held ((t -ℤ last) *ℤ rps) f brought)

  pub potential_capped : (t : ℤ) (o : Option Bucket) → potential t o ≤ℤ burst
  potential_capped t none = omega arith
  potential_capped t (some (held, last)) = min-le_left burst (held +ℤ (t -ℤ last) *ℤ rps)

  pub consume_other :
      (now : ℤ) (k key : String) (buckets : Buckets)
      → str_eq k key ≡ false
      → find key (consume rps burst now k tokens buckets).0 ≡ find key buckets
  unfolding consume
  consume_other now k key buckets other =
      find-put k key (take_tokens rps burst now tokens (or_full burst now (find k buckets))).0
        buckets
      ∙ rw other

  pub consume_same :
      (now : ℤ) (k key : String) (buckets : Buckets) (o : Option Bucket)
      → str_eq k key ≡ true
      → find key buckets ≡ o
      → let (b', result) = take_tokens rps burst now tokens (or_full burst now o) in
        let (buckets', result') = consume rps burst now k tokens buckets in
        (find key buckets' ≡ some b') × (result' ≡ result)
  unfolding consume
  consume_same now k key buckets o same e =
      let q : k ≡ key = (eq_iff k key).0 same in
      let b' = (take_tokens rps burst now tokens (or_full burst now (find k buckets))).0 in
      let here = ap (λ key. find key buckets) q ∙ e in
      (
        find-put k key b' buckets
            ∙ (rw same
                (ap (λ o. some (take_tokens rps burst now tokens (or_full burst now o)).0) here)),
        ap (λ o. (take_tokens rps burst now tokens (or_full burst now o)).1) here,
      )

  pub IsPast-later : (t now : ℤ) (o : Option Bucket) → t ≤ℤ now → IsPast t o → IsPast now o
  IsPast-later t now none h p = tt
  IsPast-later t now (some b) h p = omega arith

  -- Just after it was counted, a bucket can give what it holds.
  pub potential_now : (now : ℤ) (b : Bucket) → b.1 ≡ now → potential now (some b) ≤ℤ b.0
  potential_now now b e =
      let nothing = -ℤ_self_mul now rps in
      let most = min-le_right burst (b.0 +ℤ (now -ℤ now) *ℤ rps) in
      rw e (omega (int_laws, nothing, most))

  pub IsPast-now : (now : ℤ) (b : Bucket) → b.1 ≡ now → b.1 ≤ℤ now
  IsPast-now now b e = rw e (omega arith)
