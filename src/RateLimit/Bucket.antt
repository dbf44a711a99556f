-- ===== src/RateLimit/Bucket.antt =====
-- `InMemoryBucketStore` of shared/autosre_shared/resilience/rate_limiter.py. Tokens and clock
-- readings are integers in fixed units, and `rps` is in token units for each unit of the clock.
use auto_sre.Prelude.{
  ℕ, ◌≡◌, refl, Bool, true, false, Option, none, some, List, [], ◌∷◌, arith, length, if◌then◌else◌,
}
use auto_sre.Prelude.Int.{ℤ, pos, ◌+ℤ◌, ◌-ℤ◌, ◌*ℤ◌, ltb_ℤ, leb_ℤ, min_ℤ}
use auto_sre.Prelude.Text.{String, str_eq, eq_iff}

-- `retry_after`, in units of the clock: a quotient of two numbers, or `float("inf")`.
pub data Retry : Type 0 where
  quotient : ℤ → ℤ → Retry
  infinite : Retry

pub record RateLimitResult : Type 0 where
  pub allowed : Bool
  pub remaining : ℤ
  pub retry_after : Retry

-- A bucket: its tokens, and when they were counted.
abbrev pub Bucket : Type 0
Bucket = ℤ × ℤ

abbrev pub Buckets : Type 0
Buckets = List (String × Bucket)

-- `self._buckets.get(key)`
unfoldable pub find : String → Buckets → Option Bucket
find key [] = none
find key ((k, b) ∷ buckets) = if str_eq k key then some b else find key buckets

-- `self._buckets[key] = bucket`
unfoldable pub put : String → Bucket → Buckets → Buckets
put key b [] = (key, b) ∷ []
put key b ((k, old) ∷ buckets) =
    if str_eq k key then (k, b) ∷ buckets else (k, old) ∷ put key b buckets

abbrev pub or_full : ℤ → ℤ → Option Bucket → Bucket
or_full burst now none = (burst, now)
or_full burst now (some b) = b

-- The decision on one bucket: its new contents and the result.
unfoldable pub take_tokens : (rps burst now tokens : ℤ) → Bucket → Bucket × RateLimitResult
take_tokens rps burst now tokens (held, last) =
    let cur = min_ℤ burst (held +ℤ (now -ℤ last) *ℤ rps) in
    if leb_ℤ tokens cur
    then (
      (cur -ℤ tokens, now),
      record { allowed = true; remaining = cur -ℤ tokens; retry_after = quotient (pos 0) (pos 1) },
    )
    else (
      (cur, now),
      record {
        allowed = false;
        remaining = cur;
        retry_after = if ltb_ℤ (pos 0) rps then quotient (tokens -ℤ cur) rps else infinite;
      },
    )

-- `consume`
unfoldable pub consume : (rps burst now : ℤ) → String → ℤ → Buckets → Buckets × RateLimitResult
consume rps burst now key tokens buckets =
    let (b, result) = take_tokens rps burst now tokens (or_full burst now (find key buckets)) in
    (put key b buckets, result)

-- `active_keys`
abbrev pub active_keys : Buckets → ℕ
active_keys = length

pub find-put :
    (key k : String) (b : Bucket) (buckets : Buckets)
    → find k (put key b buckets) ≡ (if str_eq key k then some b else find k buckets)
unfolding find put
find-put key k b [] = refl
find-put key k b ((j, old) ∷ buckets) =
    ground (arith, eq_iff key k, eq_iff j key, eq_iff j k, find-put key k b buckets)
