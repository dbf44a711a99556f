-- ===== src/RateLimit/Replies.antt =====
-- What the middleware answers: the `Retry-After` it promises, the clients it tells apart, and what
-- it counts.
use native.Mathlib.Nat.{mul-le-mul_right}
use mathlib.Core.Option.{some-injective}
use auto_sre.Prelude.{
  ℕ, ◌+◌, ◌-◌, ◌*◌, ◌/◌, ◌≤◌, ◌<◌, ◌≡◌, sym, ap, ◌∙◌, ◌⊎◌, inl, inr, true, false, none, some, arith,
  Option-cases, All, List, ◌≢◌,
}
use auto_sre.Prelude.Int.{
  ℤ, pos, negsuc, pos_part, ◌+ℤ◌, ◌-ℤ◌, ◌*ℤ◌, ◌≤ℤ◌, ◌<ℤ◌, leb_ℤ, min_ℤ, max_ℤ, int_laws,
}
use auto_sre.Prelude.Text.{String, eq_iff}
use auto_sre.RateLimit.Bucket.{
  quotient, infinite, RateLimitResult, Bucket, Buckets, find, put, or_full, take_tokens, consume,
  find-put,
}
use auto_sre.RateLimit.Limiter.{
  Request, Limiter, forwarded, too_many_requests, excluded, client_key, ceil_div, ceil_seconds,
  check, refuse, dispatch,
}
use auto_sre.RateLimit.Clients.{serve, serve-keeps}

-- A bucket after a refusal at `now`, and the quotient that the refusal gives.
refused_bucket :
    (rps burst now tokens : ℤ) (b : Bucket)
    → let (b', result) = take_tokens rps burst now tokens b in
      result.allowed ≡ false
      → (b'.1 ≡ now)
        × (b'.0 <ℤ tokens)
        × (((pos 0 <ℤ rps) × (result.retry_after ≡ quotient (tokens -ℤ b'.0) rps))
            ⊎ ((rps ≤ℤ pos 0) × (result.retry_after ≡ infinite)))
unfolding take_tokens
refused_bucket rps burst now tokens b h = ground arith

ceil_enough : (p d : ℕ) → 0 < d → p ≤ (p + d - 1) / d * d
ceil_enough p d h = grind arith

wait_numbers :
    (m r v k s : ℕ) → 0 < s → 0 < r → (m + r * s - 1) / (r * s) ≤ k → k * s ≤ v → m ≤ v * r
wait_numbers m r v k s hs hr hc hw =
    let d : 0 < r * s = grind arith in
    let a = ceil_enough m (r * s) d in
    let b : (m + r * s - 1) / (r * s) * (r * s) ≤ k * (r * s) = grind arith in
    let c : k * s * r ≤ v * r = mul-le-mul_right r hw in omega (arith, a, b, c)

mul_pos : (a b : ℕ) → pos a *ℤ pos b ≡ pos (a * b)
unfolding ◌*ℤ◌
mul_pos a b = ground arith

-- The wait that the rounded-up quotient names brings the missing tokens.
wait_enough :
    (missing rps w n : ℤ) (second : ℕ)
    → 0 < second
    → pos 0 <ℤ rps
    → ceil_div missing (pos_part rps * second) ≤ℤ n
    → pos 0 ≤ℤ n
    → n *ℤ pos second ≤ℤ w
    → missing ≤ℤ w *ℤ rps
wait_enough missing (negsuc r) w n second hs hr hc hn hw = absurd (omega arith)
wait_enough missing (pos r) w (negsuc k) second hs hr hc hn hw = absurd (omega arith)
wait_enough missing (pos r) (negsuc v) (pos k) second hs hr hc hn hw =
    absurd (let h = (rw (mul_pos k second) at hw) in omega (arith, h))
wait_enough (negsuc m) (pos r) (pos v) (pos k) second hs hr hc hn hw =
    rw (mul_pos v r) (omega arith)
wait_enough (pos m) (pos r) (pos v) (pos k) second hs hr hc hn hw =
    let h = (rw (mul_pos k second) at hw) in
    let d = wait_numbers m r v k second hs (omega arith) (omega arith) (omega (arith, h)) in
    rw (mul_pos v r) (omega (arith, d))

-- A bucket that brings the missing tokens by `now'` serves then, if the burst is large enough.
served_later :
    (rps burst now' tokens : ℤ) (b : Bucket)
    → tokens ≤ℤ burst
    → tokens -ℤ b.0 ≤ℤ (now' -ℤ b.1) *ℤ rps
    → (take_tokens rps burst now' tokens b).1.allowed ≡ true
unfolding take_tokens
served_later rps burst now' tokens b hb h =
    let e : leb_ℤ tokens (min_ℤ burst (b.0 +ℤ (now' -ℤ b.1) *ℤ rps)) ≡ true =
      leb_min tokens burst (b.0 +ℤ (now' -ℤ b.1) *ℤ rps) hb (omega int_laws) in
    rw e
  where
    leb_min : (a b c : ℤ) → a ≤ℤ b → a ≤ℤ c → leb_ℤ a (min_ℤ b c) ≡ true
    leb_min a b c h k = ground arith

module _ (one : ℤ) (second : ℕ) where
  find-put_self :
      (key : String) (b : Bucket) (buckets : Buckets) → find key (put key b buckets) ≡ some b
  find-put_self key b buckets = ground (arith, find-put key key b buckets, eq_iff key key)

  refuse_reply :
      (key path : String) (result : RateLimitResult) (l : Limiter) (n : ℤ)
      → (refuse one second key path result l).1 ≡ too_many_requests n
      → (c : ℤ) × (ceil_seconds second result.retry_after ≡ some c) × (n ≡ max_ℤ (pos 1) c)
  unfolding refuse
  refuse_reply key path result l n h =
      elim (Option-cases (ceil_seconds second result.retry_after)) [
        | inl bad ↦ ground arith
        | inr (c, e) ↦ (c, e, sym (promised (max_ℤ (pos 1) c) n (rw (e, refuse) at h)))
      ]
    where
      promised : (a b : ℤ) → too_many_requests a ≡ too_many_requests b → a ≡ b
      promised a b e = cc

  refuse_keeps :
      (key path : String) (result : RateLimitResult) (l : Limiter)
      → let l' = (refuse one second key path result l).0 in
        (l'.rps ≡ l.rps)
        × (l'.burst ≡ l.burst)
        × (l'.buckets ≡ l.buckets)
        × (l'.requests_total ≡ l.requests_total)
        × (l'.rejections_total ≡ l.rejections_total)
  unfolding refuse
  refuse_keeps key path result l = ground arith

  -- A request that is answered with 429 was limited and refused by the bucket of its key.
  refused_dispatch :
      (now : ℤ) (req : Request) (l : Limiter) (n : ℤ)
      → (dispatch one second now req l).1 ≡ too_many_requests n
      → let b = or_full l.burst now (find (client_key req) l.buckets) in
        (excluded req.path ≡ false) × ((take_tokens l.rps l.burst now one b).1.allowed ≡ false)
  unfolding dispatch check consume
  refused_dispatch now req l n h = ground arith

  -- The limiter once a request is counted and refused.
  abbrev counted_refusal : ℤ → Request → Limiter → Limiter
  counted_refusal now req l =
      let b = or_full l.burst now (find (client_key req) l.buckets) in
      record l {
        buckets = put (client_key req) (take_tokens l.rps l.burst now one b).0 l.buckets;
        requests_total = l.requests_total + 1;
        rejections_total = l.rejections_total + 1;
      }

  limited_dispatch :
      (now : ℤ) (req : Request) (l : Limiter)
      → let b = or_full l.burst now (find (client_key req) l.buckets) in
        let result = (take_tokens l.rps l.burst now one b).1 in
        excluded req.path ≡ false
        → result.allowed ≡ false
        → dispatch one second now req l
          ≡ refuse one second (client_key req) req.path result (counted_refusal now req l)
  unfolding dispatch check consume
  limited_dispatch now req l limited refused = rw (limited, refused)

  forwarded_dispatch :
      (now : ℤ) (req : Request) (l : Limiter) {b : Bucket}
      → find (client_key req) l.buckets ≡ some b
      → (take_tokens l.rps l.burst now one b).1.allowed ≡ true
      → (dispatch one second now req l).1 ≡ forwarded
  unfolding dispatch check consume
  forwarded_dispatch now req l e h = ground arith

  retry_brings :
      (rps burst now now' n : ℤ) (b : Bucket) {c : ℤ}
      → 0 < second
      → let (b', result) = take_tokens rps burst now one b in
        result.allowed ≡ false
        → ceil_seconds second result.retry_after ≡ some c
        → n ≡ max_ℤ (pos 1) c
        → n *ℤ pos second ≤ℤ now' -ℤ now
        → one -ℤ b'.0 ≤ℤ (now' -ℤ b'.1) *ℤ rps
  unfolding ceil_seconds
  retry_brings rps burst now now' n b {c} hs refused e max wait =
      let (b', result) = take_tokens rps burst now one b in
      let (time, short, why) = refused_bucket rps burst now one b refused in
      elim why [
        | inl (positive, q) ↦
            let missing = one -ℤ b'.0 in
            let counted : ceil_div missing (pos_part rps * second) ≡ c =
              some-injective _ _ (sym (ap (ceil_seconds second) q) ∙ e) in
            let above : (ceil_div missing (pos_part rps * second) ≤ℤ n) × (pos 0 ≤ℤ n) =
              (rw (counted, max) (at_least c)) in
            rw time
              (wait_enough missing rps (now' -ℤ now) n second hs positive above.0 above.1 wait)
        | inr (stopped, inf) ↦ absurd (none-ne-some (sym (ap (ceil_seconds second) inf) ∙ e))
      ]
    where
      at_least : (c : ℤ) → (c ≤ℤ max_ℤ (pos 1) c) × (pos 0 ≤ℤ max_ℤ (pos 1) c)
      at_least c = ground arith

      none-ne-some : {c : ℤ} → none ≡ some c → ⊥
      none-ne-some e = cc

  -- The limiter after a refusal that names `n` seconds: the bucket of the client serves a request
  -- after that time.
  refusal_leaves :
      (now now' : ℤ) (req : Request) (l : Limiter) (n : ℤ)
      → 0 < second
      → one ≤ℤ l.burst
      → (dispatch one second now req l).1 ≡ too_many_requests n
      → n *ℤ pos second ≤ℤ now' -ℤ now
      → let l' = (dispatch one second now req l).0 in
        (b : Bucket) × (find (client_key req) l'.buckets ≡ some b)
        × ((take_tokens l'.rps l'.burst now' one b).1.allowed ≡ true)
  refusal_leaves now now' req l n hs hb h wait =
      let key = client_key req in
      let b = or_full l.burst now (find key l.buckets) in
      let (b', result) = take_tokens l.rps l.burst now one b in
      let (limited, refused) = refused_dispatch now req l n h in
      let step = limited_dispatch now req l limited refused in
      let counted = counted_refusal now req l in
      let result = (take_tokens l.rps l.burst now one b).1 in
      let (r, u, bs, _, _) = refuse_keeps key req.path result counted in
      let (c, e, max) = refuse_reply key req.path result counted n (sym (ap (λ d. d.1) step) ∙ h) in
      let brought = retry_brings l.rps l.burst now now' n b hs refused e max wait in
      (
        b',
        rw step (ap (find key) bs ∙ find-put_self key b' l.buckets),
        rw (step, r, u) (served_later l.rps l.burst now' one b' hb brought),
      )

  -- A client that is answered with 429 and comes back after the seconds of its `Retry-After` is
  -- served, if the burst holds a token, whatever requests of other clients came in between.
  pub retry_after_suffices :
      (now now' : ℤ) (req : Request) (l : Limiter) (n : ℤ) (between : List (ℤ × Request))
      → 0 < second
      → one ≤ℤ l.burst
      → (dispatch one second now req l).1 ≡ too_many_requests n
      → All (λ r. client_key r.1 ≢ client_key req) between
      → n *ℤ pos second ≤ℤ now' -ℤ now
      → (dispatch one second now' req
          (serve one second between (dispatch one second now req l).0).0).1
        ≡ forwarded
  retry_after_suffices now now' req l n between hs hb h others wait =
      let refused = (dispatch one second now req l).0 in
      let later = (serve one second between refused).0 in
      let (b, there, serves) = refusal_leaves now now' req l n hs hb h wait in
      let (r, u, same) = serve-keeps one second between refused (client_key req) others in
      forwarded_dispatch now' req later (same ∙ there) (rw (r, u) serves)
