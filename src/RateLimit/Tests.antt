-- ===== src/RateLimit/Tests.antt =====
-- A limiter of two tokens and one token a second, and the theorems at concrete inputs. A token is
-- 1000 units, and a second 1000 units of the clock.
use auto_sre.Prelude.{◌≡◌, ◌≢◌, refl, true, false, some, List, [], ◌∷◌, arith}
use auto_sre.Prelude.Int.{ℤ, pos, ◌+ℤ◌, ◌-ℤ◌, ◌*ℤ◌, ◌≤ℤ◌}
use mathlib.Core.Bool.{false≢true}
use auto_sre.Prelude.Text.{String, eq_iff}
use auto_sre.RateLimit.Text.{strip, before_comma}
use auto_sre.RateLimit.Bucket.{find, put, take_tokens, consume}
use auto_sre.RateLimit.Bound.{after, finish, granted, granted_within_rate}
use auto_sre.RateLimit.Limiter.{
  Request, Limiter, forwarded, too_many_requests, overflow_error, excluded, client_key,
  ceil_seconds, check, refuse, dispatch,
}
use auto_sre.RateLimit.Replies.{retry_after_suffices}
use auto_sre.RateLimit.Clients.{refusal_overflows, serve}
use auto_sre.RateLimit.Spec.{replies_to, of_key, alone, serve-alone}
use auto_sre.RateLimit.Reference.{lazy, filled, lazy-filled}

abbrev token : ℤ
token = pos 1000

abbrev limiter : Limiter
limiter = record {
  rps = pos 1;
  burst = pos 2000;
  buckets = ("alice", (pos 200, pos 0)) ∷ [];
  requests_total = 0;
  rejections_total = 0;
  events = [];
}

abbrev stopped : Limiter
stopped = record limiter { rps = pos 0 }

abbrev from_key : String → Request
from_key key = record { path = "/orders"; forwarded_for = some key; client_host = some "10.0.0.1" }

keys :
    (client_key (from_key " alice , proxy") ≡ "alice")
    × (client_key (from_key "") ≡ "10.0.0.1")
    × (excluded "/chaos/reset" ≡ true)
    × (excluded "/orders" ≡ false)
unfolding client_key strip before_comma excluded
keys = (refl, refl, refl, refl)

refused_for_a_second :
    (dispatch token 1000 (pos 100) (from_key "alice") limiter).1 ≡ too_many_requests (pos 1)
unfolding dispatch check refuse consume take_tokens find put client_key strip before_comma
    ceil_seconds excluded ◌+ℤ◌ ◌-ℤ◌ ◌*ℤ◌
refused_for_a_second = refl

-- A request of another client in the meantime.
abbrev meanwhile : List (ℤ × Request)
meanwhile = (pos 600, from_key "bob") ∷ []

apart : client_key (from_key "bob") ≢ client_key (from_key "alice")
unfolding client_key strip before_comma
apart e = false≢true ((eq_iff "bob" "alice").1 e)

retry_after_suffices_example :
    (dispatch token 1000
      (pos 1100)
      (from_key "alice")
      (serve token 1000 meanwhile (dispatch token 1000 (pos 100) (from_key "alice") limiter).0).0).1
    ≡ forwarded
unfolding ◌*ℤ◌ ◌-ℤ◌
retry_after_suffices_example =
    retry_after_suffices token 1000 (pos 100) (pos 1100) (from_key "alice") limiter (pos 1)
      meanwhile (omega arith) (omega arith) refused_for_a_second (apart, tt) (omega arith)

abbrev mixed : List (ℤ × String)
mixed = (pos 0, "alice") ∷ (pos 10, "bob") ∷ (pos 20, "alice") ∷ (pos 500, "alice") ∷ []

-- Two requests after a long pause.
abbrev stretch : List (ℤ × String)
stretch = (pos 9000, "alice") ∷ (pos 9500, "alice") ∷ []

granted_within_rate_example :
    granted (pos 1) (pos 2000) token "alice" stretch (after (pos 1) (pos 2000) token mixed [])
    ≤ℤ pos 2000 +ℤ (finish (pos 9000) stretch -ℤ pos 9000) *ℤ pos 1
granted_within_rate_example =
    granted_within_rate (pos 1) (pos 2000) token "alice" (pos 0) (pos 9000) mixed stretch
      (omega arith) (omega arith) (omega arith) (omega arith) (omega arith)

refusal_overflows_example :
    (dispatch token 1000 (pos 100) (from_key "alice") stopped).1 ≡ overflow_error
unfolding find client_key strip before_comma excluded
refusal_overflows_example =
    refusal_overflows token 1000 (pos 100) (pos 200) (pos 0) (from_key "alice") stopped
      (omega arith) refl refl (omega arith) (omega arith)

abbrev arrivals : List (ℤ × Request)
arrivals = (pos 100, from_key "alice") ∷ (pos 200, from_key "bob") ∷ []

serve-alone_example :
    replies_to "alice" arrivals (serve token 1000 arrivals limiter).1
    ≡ alone token 1000 (pos 1) (pos 2000) (some (pos 200, pos 0)) (of_key "alice" arrivals)
unfolding find
serve-alone_example = serve-alone token 1000 "alice" arrivals limiter

lazy-filled_example :
    let (b', verdicts) = lazy (pos 1) (pos 2000) token (300 ∷ 800 ∷ 100 ∷ []) (pos 200, pos 0) in
    (b'.0, verdicts) ≡ filled (pos 1) (pos 2000) token (300 ∷ 800 ∷ 100 ∷ []) (pos 200)
lazy-filled_example =
    lazy-filled (pos 1) (pos 2000) token (300 ∷ 800 ∷ 100 ∷ []) (pos 200, pos 0) (omega arith)
      (omega arith) (omega arith)
