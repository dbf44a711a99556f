-- ===== src/Orders/Validate.antt =====
-- `validate` of auth/main.py, behind the breaker `identity-provider`.
use auto_sre.Prelude.{ℕ, ◌+◌, ◌*◌, Bool, true, false, not, ◌&&◌, List, [], ◌∷◌, leb, if◌then◌else◌}
use auto_sre.Prelude.Int.{ℤ, pos}
use auto_sre.Prelude.Text.{String, is_one_of}
use auto_sre.Breaker.{BreakerStore, Config, World}
use auto_sre.Breaker.Protect.{Outcome, returned, raised, protect}
use auto_sre.Orders.Token.{text_length}
use auto_sre.Orders.Create.{CallError, circuit_open, failure, cancelled, call_errors}

abbrev pub invalid_tokens : List String
invalid_tokens = "" ∷ "invalid" ∷ "expired" ∷ []

-- The bounds of `TokenRequest.token`.
unfoldable pub valid_request : String → Bool
valid_request token = leb 1 (text_length token) && leb (text_length token) 4096

-- `_identity_breaker`
abbrev pub identity_breaker : ℕ → Config
identity_breaker second = record {
  name = "identity-provider";
  failure_threshold = 5;
  recovery_timeout = pos (20 * second);
  success_threshold = 2;
}

-- The breaker, and `auth_token_validations_total` by its label.
pub record Auth (S : Type 0) : Type 0 where
  pub breaker : World S
  pub valid_total : ℕ
  pub invalid_total : ℕ

pub data Verdict : Type 0 where
  verdict : Bool → String → Verdict
  unavailable : String → Verdict
  unprocessable : Verdict
  server_error : Verdict
  dropped : Verdict

-- The route after `_validate_with_backend`.
unfoldable pub count_verdict :
    {S : Type 0} → String → World S → Outcome Bool CallError → Auth S → Auth S × Verdict
count_verdict token w (returned true) a =
    (record a { breaker = w; valid_total = a.valid_total + 1 }, verdict true token)
count_verdict token w (returned false) a =
    (record a { breaker = w; invalid_total = a.invalid_total + 1 }, verdict false token)
count_verdict token w (raised (circuit_open name)) a = (record a { breaker = w }, unavailable name)
count_verdict token w (raised failure) a = (record a { breaker = w }, server_error)
count_verdict token w (raised cancelled) a = (record a { breaker = w }, dropped)

-- `others` is what other requests do to the breaker while the backend sleeps.
module _ {S : Type 0} (st : BreakerStore S) (second : ℕ) (others : World S → World S) where
  -- `backend`, the sleep and the test.
  abbrev pub backend : String → World S → World S × Outcome Bool CallError
  backend token w = (others w, returned (not (is_one_of token invalid_tokens)))

  unfoldable pub validate : ℤ → ℤ → String → Auth S → Auth S × Verdict
  validate entered left token a =
      if valid_request token
      then (let (w, ended) =
            protect st (identity_breaker second) call_errors entered left (backend token)
              a.breaker in
          count_verdict token w ended a)
      else (a, unprocessable)
