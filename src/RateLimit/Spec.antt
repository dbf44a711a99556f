-- ===== src/RateLimit/Spec.antt =====
-- What the limiter promises each client: a bucket of its own. The map of buckets implements one
-- bucket for each key, whatever the other clients do.
use auto_sre.Prelude.{
  ℕ, ◌≡◌, refl, Option, some, List, [], ◌∷◌, arith, Bool-cases, inl, inr, if◌then◌else◌,
}
use auto_sre.Prelude.Int.{ℤ}
use auto_sre.Prelude.Text.{String, str_eq, eq_iff}
use auto_sre.RateLimit.Bucket.{Bucket, find, or_full, take_tokens, consume, find-put}
use auto_sre.RateLimit.Limiter.{
  Request, Limiter, Reply, excluded, client_key, check, refuse, dispatch,
}
use auto_sre.RateLimit.Clients.{decided, dispatch-keeps, serve}

-- The requests of one key, and of the replies to a run those to that key's requests.
abbrev pub of_key : String → List (ℤ × Request) → List (ℤ × Request)
of_key key [] = []
of_key key ((now, req) ∷ requests) =
    let rest = of_key key requests in
    if str_eq (client_key req) key then (now, req) ∷ rest else rest

abbrev pub replies_to : String → List (ℤ × Request) → List Reply → List Reply
replies_to key [] replies = []
replies_to key (r ∷ requests) [] = []
replies_to key ((now, req) ∷ requests) (reply ∷ replies) =
    let rest = replies_to key requests replies in
    if str_eq (client_key req) key then reply ∷ rest else rest

module _ (one : ℤ) (second : ℕ) where
  -- One client alone with its bucket, which is full and new at its first limited request.
  pub alone : ℤ → ℤ → Option Bucket → List (ℤ × Request) → List Reply
  alone rps burst bucket [] = []
  alone rps burst bucket ((now, req) ∷ requests) =
      let (bucket', result) = take_tokens rps burst now one (or_full burst now bucket) in
      decided one second req result
      ∷ alone rps burst (if excluded req.path then bucket else some bucket') requests

  dispatch-own :
      (now : ℤ) (req : Request) (l : Limiter) (key : String)
      → client_key req ≡ key
      → let (l', reply) = dispatch one second now req l in
        let bucket = find key l.buckets in
        let (bucket', result) = take_tokens l.rps l.burst now one (or_full l.burst now bucket) in
        (l'.rps ≡ l.rps)
        × (l'.burst ≡ l.burst)
        × (find key l'.buckets ≡ (if excluded req.path then bucket else some bucket'))
        × (reply ≡ decided one second req result)
  unfolding dispatch check consume refuse
  dispatch-own now req l key e =
      let b' = (take_tokens l.rps l.burst now one (or_full l.burst now (find key l.buckets))).0 in
      rw e (ground (arith, find-put key key b' l.buckets, eq_iff key key))

  -- In any run of requests by any clients, the replies to one key's requests are those that its own
  -- requests, at their times, get of a single bucket with the limiter's rate and burst.
  pub serve-alone :
      (key : String) (requests : List (ℤ × Request)) (l : Limiter)
      → replies_to key requests (serve one second requests l).1
        ≡ alone l.rps l.burst (find key l.buckets) (of_key key requests)
  unfolding serve alone
  serve-alone key [] l = refl
  serve-alone key ((now, req) ∷ requests) l =
      let l' = (dispatch one second now req l).0 in
      let ih = serve-alone key requests l' in
      elim (Bool-cases (str_eq (client_key req) key)) [
        | inl own ↦
            let (r, u, found, said) =
              dispatch-own now req l key ((eq_iff (client_key req) key).0 own) in
            rw (own, said, ih, r, u, found) refl
        | inr foreign ↦
            let (r, u, found) =
              dispatch-keeps one second now req l key
                (λ e. let same = (eq_iff (client_key req) key).1 e in ground arith) in
            rw (foreign, ih, r, u, found) refl
      ]
