-- ===== src/RateLimit/Clients.antt =====
-- How the middleware treats clients: a new one, two at a time, and one that is refused while the
-- rate is not positive; and what it counts over a run of requests.
use auto_sre.Prelude.{
  All, ◌∙◌, ℕ, ◌+◌, ◌≡◌, ◌≢◌, refl, true, false, none, some, List, [], ◌∷◌, arith, length,
  length-append, if◌then◌else◌,
}
use auto_sre.Prelude.Int.{
  ℤ, pos, ◌+ℤ◌, ◌-ℤ◌, ◌*ℤ◌, ◌≤ℤ◌, ◌<ℤ◌, leb_ℤ, ltb_ℤ, min_ℤ, max_ℤ, int_laws, -ℤ_self_mul,
  *ℤ_nonpos, -ℤ_nonneg, min-le_right,
}
use auto_sre.Prelude.Text.{String, eq_iff}
use auto_sre.RateLimit.Bucket.{
  infinite, RateLimitResult, find, or_full, take_tokens, consume, find-put,
}
use auto_sre.RateLimit.Limiter.{
  Request, Limiter, Reply, forwarded, too_many_requests, overflow_error, excluded, client_key,
  ceil_seconds, check, refuse, dispatch,
}

leb_min_full :
    (one burst brought : ℤ)
    → one ≤ℤ burst
    → pos 0 ≤ℤ brought
    → leb_ℤ one (min_ℤ burst (burst +ℤ brought)) ≡ true
unfolding ◌+ℤ◌
leb_min_full one burst brought h k = ground arith

full_serves :
    (rps burst now one : ℤ)
    → one ≤ℤ burst
    → (take_tokens rps burst now one (burst, now)).1.allowed ≡ true
unfolding take_tokens
full_serves rps burst now one h =
    let nothing = -ℤ_self_mul now rps in
    rw (leb_min_full one burst ((now -ℤ now) *ℤ rps) h (omega (arith, nothing)))

starved :
    (rps burst now one held last : ℤ)
    → rps ≤ℤ pos 0
    → held <ℤ one
    → last ≤ℤ now
    → let result = (take_tokens rps burst now one (held, last)).1 in
      (result.allowed ≡ false) × (result.retry_after ≡ infinite)
unfolding take_tokens
starved rps burst now one held last hr hh hl =
    let taken = *ℤ_nonpos (now -ℤ last) rps (-ℤ_nonneg now last hl) hr in
    let cap = min-le_right burst (held +ℤ (now -ℤ last) *ℤ rps) in
    let short : leb_ℤ one (min_ℤ burst (held +ℤ (now -ℤ last) *ℤ rps)) ≡ false =
      not_leb one (min_ℤ burst (held +ℤ (now -ℤ last) *ℤ rps)) (omega (int_laws, cap, taken)) in
    rw (short, not_ltb rps hr) (refl, refl)
  where
    not_leb : (a b : ℤ) → b <ℤ a → leb_ℤ a b ≡ false
    not_leb a b h = ground arith

    not_ltb : (a : ℤ) → a ≤ℤ pos 0 → ltb_ℤ (pos 0) a ≡ false
    not_ltb a h = ground arith

abbrev pub is_refused : Reply → ℕ
is_refused forwarded = 0
is_refused (too_many_requests n) = 1
is_refused overflow_error = 1

abbrev is_answered : Reply → ℕ
is_answered (too_many_requests n) = 1
is_answered forwarded = 0
is_answered overflow_error = 0

abbrev refusals : List Reply → ℕ
refusals [] = 0
refusals (r ∷ rs) = is_refused r + refusals rs

abbrev answers : List Reply → ℕ
answers [] = 0
answers (r ∷ rs) = is_answered r + answers rs

abbrev pub limited : List (ℤ × Request) → ℕ
limited [] = 0
limited ((now, req) ∷ requests) = (if excluded req.path then 0 else 1) + limited requests

module _ (one : ℤ) (second : ℕ) where
  -- The reply, by the decision on the bucket of the request's key alone.
  abbrev pub decided : Request → RateLimitResult → Reply
  decided req result =
      if excluded req.path
      then forwarded
      else (if result.allowed then forwarded else elim (ceil_seconds second result.retry_after) [
        | none ↦ overflow_error
        | some n ↦ too_many_requests (max_ℤ (pos 1) n)
      ])

  reply_lem :
      (now : ℤ) (req : Request) (l : Limiter)
      → (dispatch one second now req l).1
        ≡ decided req
            (take_tokens l.rps l.burst now one
              (or_full l.burst now (find (client_key req) l.buckets))).1
  unfolding dispatch check consume refuse
  reply_lem now req l = ground arith

  -- A request whose key has no bucket yet is passed on, if the burst holds a token; so a client that
  -- sends a new `X-Forwarded-For` each time is never refused.
  new_client_served :
      (now : ℤ) (req : Request) (l : Limiter)
      → one ≤ℤ l.burst
      → find (client_key req) l.buckets ≡ none
      → (dispatch one second now req l).1 ≡ forwarded
  new_client_served now req l hb e =
      rw (reply_lem now req l, e, full_serves l.rps l.burst now one hb) (ground arith)

  -- With a rate of 0 or less, a limited request whose bucket does not hold a token is not answered
  -- with 429: computing its `Retry-After` ends in an `OverflowError`.
  pub refusal_overflows :
      (now held last : ℤ) (req : Request) (l : Limiter)
      → l.rps ≤ℤ pos 0
      → excluded req.path ≡ false
      → find (client_key req) l.buckets ≡ some (held, last)
      → held <ℤ one
      → last ≤ℤ now
      → (dispatch one second now req l).1 ≡ overflow_error
  unfolding ceil_seconds
  refusal_overflows now held last req l hr limited e hh hl =
      let (refused, inf) = starved l.rps l.burst now one held last hr hh hl in
      rw (reply_lem now req l, e, limited, refused, inf) refl

  pub dispatch-keeps :
      (now : ℤ) (req : Request) (l : Limiter) (key : String)
      → client_key req ≢ key
      → let l' = (dispatch one second now req l).0 in
        (l'.rps ≡ l.rps) × (l'.burst ≡ l.burst) × (find key l'.buckets ≡ find key l.buckets)
  unfolding dispatch check consume refuse
  dispatch-keeps now req l key ne =
      let k = client_key req in
      let b' = (take_tokens l.rps l.burst now one (or_full l.burst now (find k l.buckets))).0 in
      ground (arith, find-put k key b' l.buckets, eq_iff k key)

  -- The requests of one client do not change what another is answered: a request gets the reply
  -- that it would get without a request of another key just before it, whenever that came.
  clients_are_apart :
      (now now' : ℤ) (other req : Request) (l : Limiter)
      → client_key other ≢ client_key req
      → (dispatch one second now' req (dispatch one second now other l).0).1
        ≡ (dispatch one second now' req l).1
  clients_are_apart now now' other req l ne =
      let l' = (dispatch one second now other l).0 in
      let (r, u, found) = dispatch-keeps now other l (client_key req) ne in
      rw (reply_lem now' req l', reply_lem now' req l, r, u, found) refl

  -- The requests of a run, each with the clock's reading, and their replies.
  unfoldable pub serve : List (ℤ × Request) → Limiter → Limiter × List Reply
  serve [] l = (l, [])
  serve ((now, req) ∷ requests) l =
      let (l', reply) = dispatch one second now req l in
      let (l'', replies) = serve requests l' in (l'', reply ∷ replies)

  -- Requests of other clients leave a client's bucket, the rate and the burst alone.
  pub serve-keeps :
      (requests : List (ℤ × Request)) (l : Limiter) (key : String)
      → All (λ r. client_key r.1 ≢ key) requests
      → let l' = (serve requests l).0 in
        (l'.rps ≡ l.rps) × (l'.burst ≡ l.burst) × (find key l'.buckets ≡ find key l.buckets)
  unfolding serve
  serve-keeps [] l key others = (refl, refl, refl)
  serve-keeps ((now, req) ∷ requests) l key (ne, others) =
      let (r, u, b) = dispatch-keeps now req l key ne in
      let (r', u', b') = serve-keeps requests (dispatch one second now req l).0 key others in
      (r' ∙ r, u' ∙ u, b' ∙ b)

  pub dispatch_counts :
      (now : ℤ) (req : Request) (l : Limiter)
      → let (l', reply) = dispatch one second now req l in
        (l'.requests_total ≡ l.requests_total + (if excluded req.path then 0 else 1))
        × (l'.rejections_total ≡ l.rejections_total + is_refused reply)
        × (length l'.events ≡ length l.events + is_answered reply)
  unfolding dispatch check refuse
  dispatch_counts now req l = grind (arith, length-append)

  -- Over any run of requests the counter of requests goes up by the requests whose path is not
  -- excluded, the counter of rejections by the requests that are not passed on, and one event is
  -- reported for each answer with 429.
  pub serve_counts :
      (requests : List (ℤ × Request)) (l : Limiter)
      → let (l', replies) = serve requests l in
        (l'.requests_total ≡ l.requests_total + limited requests)
        × (l'.rejections_total ≡ l.rejections_total + refusals replies)
        × (length l'.events ≡ length l.events + answers replies)
  unfolding serve
  serve_counts [] l = omega arith
  serve_counts ((now, req) ∷ requests) l =
      omega
        (arith, dispatch_counts now req l, serve_counts requests (dispatch one second now req l).0)
