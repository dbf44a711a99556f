-- ===== src/RateLimit/Limiter.antt =====
-- `RateLimiter`, `_client_key`, `_excluded` and `RateLimitMiddleware.dispatch` of
-- shared/autosre_shared/resilience/rate_limiter.py.
use auto_sre.Prelude.{
  ℕ, ◌+◌, ◌-◌, ◌*◌, ◌/◌, Bool, ◌||◌, Option, none, some, List, [], ◌∷◌, ◌++◌, suc, take, map,
  if◌then◌else◌,
}
use auto_sre.Prelude.Int.{ℤ, pos, negsuc, pos_part, ◌-ℤ◌, max_ℤ}
use auto_sre.Prelude.Text.{String, is_one_of, starts_with_any}
use auto_sre.Storage.{Emitted, end, field, num, str}
use auto_sre.Storage.Source
use auto_sre.RateLimit.Text.{before_comma, strip, is_empty}
use auto_sre.RateLimit.Bucket.{
  Retry, quotient, infinite, RateLimitResult, Buckets, consume, active_keys,
}

-- A request as the middleware reads it: `request.url.path`, the header `x-forwarded-for` and
-- `request.client.host`.
pub record Request : Type 0 where
  pub path : String
  pub forwarded_for : Option String
  pub client_host : Option String

abbrev exclude_exact : List String
exclude_exact = "/" ∷ "/health" ∷ "/ready" ∷ "/metrics" ∷ "/docs" ∷ "/redoc" ∷ "/openapi.json" ∷ []

abbrev exclude_prefixes : List String
exclude_prefixes = "/chaos" ∷ "/breaker" ∷ "/rate-limit" ∷ "/failures" ∷ []

-- `_excluded`
unfoldable pub excluded : String → Bool
excluded path = is_one_of path exclude_exact || starts_with_any path exclude_prefixes

host_key : Option String → String
host_key none = "unknown"
host_key (some host) = host

-- `_client_key`: an empty header counts as none.
unfoldable pub client_key : Request → String
unfolding host_key
client_key req = elim req.forwarded_for [
  | none ↦ host_key req.client_host
  | some xff ↦ if is_empty xff then host_key req.client_host else strip (before_comma xff)
]

-- `RateLimiter` over the in-memory store, the two counters, and the events reported so far.
pub record Limiter : Type 0 where
  pub rps : ℤ
  pub burst : ℤ
  pub buckets : Buckets
  pub requests_total : ℕ
  pub rejections_total : ℕ
  pub events : List Emitted

-- `math.ceil(p / d)` for a positive `d`.
abbrev pub ceil_div : ℤ → ℕ → ℤ
ceil_div (pos p) d = pos ((p + d - 1) / d)
ceil_div (negsuc p) d = pos 0 -ℤ pos (suc p / d)

-- `math.ceil(result.retry_after)` in seconds of `second` clock units; `none` is the
-- `OverflowError` of `math.ceil(float("inf"))`.
unfoldable pub ceil_seconds : ℕ → Retry → Option ℤ
ceil_seconds second (quotient p q) = some (ceil_div p (pos_part q * second))
ceil_seconds second infinite = none

-- The request is passed on to the application, answered with 429, or ends in an `OverflowError`.
pub data Reply : Type 0 where
  forwarded : Reply
  too_many_requests : ℤ → Reply
  overflow_error : Reply

-- `one` is the number of units of a token, and `second` that of clock units in a second.
module _ (one : ℤ) (second : ℕ) where
  -- `RateLimiter.check`
  unfoldable pub check : ℤ → String → Limiter → Limiter × RateLimitResult
  check now key l =
      let (buckets, result) = consume l.rps l.burst now key one l.buckets in
      (
        record l {
          buckets = buckets;
          requests_total = l.requests_total + 1;
          rejections_total = if result.allowed then l.rejections_total else l.rejections_total + 1;
        },
        result,
      )

  abbrev rejected_event : String → String → ℤ → Emitted
  rejected_event key path retry = record {
    source = Source.rate_limit;
    event = "rejected";
    details =
        field "client" (str key) (field "path" (str path) (field "retry_after" (num retry) end));
  }

  -- What `dispatch` does after a refusal.
  unfoldable pub refuse : String → String → RateLimitResult → Limiter → Limiter × Reply
  refuse key path result l = elim (ceil_seconds second result.retry_after) [
    | none ↦ (l, overflow_error)
    | some n ↦
        let retry = max_ℤ (pos 1) n in
        (
          record l { events = l.events ++ rejected_event key path retry ∷ [] },
          too_many_requests retry,
        )
  ]

  -- `RateLimitMiddleware.dispatch`
  unfoldable pub dispatch : ℤ → Request → Limiter → Limiter × Reply
  dispatch now req l =
      if excluded req.path
      then (l, forwarded)
      else (let key = client_key req in
          let (l', result) = check now key l in
          if result.allowed then (l', forwarded) else refuse key req.path result l')

-- `InMemoryBucketStore.sample`; `round2` is `round(_, 2)`.
unfoldable sample : (ℤ → ℤ) → ℕ → Buckets → List (String × ℤ)
sample round2 limit buckets = map (λ e. (e.0, round2 e.1.0)) (take limit buckets)

-- `RateLimiter.snapshot`, the answer of `GET /rate-limit/status`.
pub record Status : Type 0 where
  pub requests_per_second : ℤ
  pub burst_capacity : ℤ
  pub active_clients : ℕ
  pub sampled : List (String × ℤ)

unfoldable pub snapshot : (ℤ → ℤ) → Limiter → Status
unfolding sample
snapshot round2 l = record {
  requests_per_second = l.rps;
  burst_capacity = l.burst;
  active_clients = active_keys l.buckets;
  sampled = sample round2 20 l.buckets;
}

-- `get_limiter` and `set_limiter` on the module's `_default`; `build` is the limiter made from the
-- environment.
unfoldable get_limiter : Limiter → Option Limiter → Option Limiter × Limiter
get_limiter build none = (some build, build)
get_limiter build (some l) = (some l, l)

unfoldable set_limiter : Limiter → Option Limiter → Option Limiter
set_limiter l default = some l
