-- ===== src/Observability/Red.antt =====
-- `PrometheusMiddleware` of shared/autosre_shared/observability/middleware.py, with the metrics of
-- observability/metrics.py as the list of their labels, one entry for each count. A status stands
-- for its decimal text.
use auto_sre.Prelude.{ℕ, Option, none, some, List, [], ◌∷◌, ◌++◌, if◌then◌else◌}
use auto_sre.Prelude.Int.{ℤ, pos, ◌+ℤ◌, ◌-ℤ◌}
use auto_sre.Prelude.Text.{String, str_eq}

pub record Metrics : Type 0 where
  pub requests : List (String × String × ℕ)
  pub durations : List (String × String)
  pub in_progress : String → ℤ
  pub exceptions : List (String × String × String)

-- How the wrapped application ends: with a response, with an `Exception` of some type, or with
-- another exception (a `CancelledError`).
pub data Ending : Type 0 where
  response : ℕ → Ending
  raised : String → Ending
  interrupted : Ending

-- A request as the middleware reads it; `route` is the matched template, once there is one.
pub record Call : Type 0 where
  pub method : String
  pub path : String
  pub route : Option String

-- `route_label`
unfoldable pub route_label : Call → String
route_label call = elim call.route [
  | some template ↦ if str_eq template "" then call.path else template
  | none ↦ call.path
]

abbrev pub bump : (ℤ → ℤ) → String → (String → ℤ) → String → ℤ
bump f key gauge k = if str_eq key k then f (gauge k) else gauge k

-- The `except` clause and the `finally` clause.
unfoldable pub count_exception : Call → Ending → Metrics → Metrics
count_exception call (response status) m = m
count_exception call (raised kind) m = record m {
  exceptions = m.exceptions ++ (call.method, route_label call, kind) ∷ [];
}
count_exception call interrupted m = m

-- The status that the `finally` clause finds.
abbrev pub status_of : Ending → ℕ
status_of (response status) = status
status_of (raised kind) = 500
status_of interrupted = 500

unfoldable pub finish_call : Call → Ending → Metrics → Metrics
finish_call call ending m = record m {
  requests = m.requests ++ (call.method, route_label call, status_of ending) ∷ [];
  durations = m.durations ++ (call.method, route_label call) ∷ [];
  in_progress = bump (λ n. n -ℤ pos 1) call.method m.in_progress;
}

module _ {W : Type 0} where
  -- The `try` block: the chaos hook, where there is one, and the wrapped application unless the
  -- hook answers with an injected response of its status.
  unfoldable pub attempt :
      Option (W → W × Option ℕ)
      → (Metrics × W → (Metrics × W) × Ending)
      → Metrics × W
      → (Metrics × W) × Ending
  attempt none call_next s = call_next s
  attempt (some hook) call_next (m, w) =
      let (w', injected) = hook w in
      elim injected [ some status ↦ ((m, w'), response status) | none ↦ call_next (m, w') ]

  -- `PrometheusMiddleware.dispatch`
  unfoldable pub dispatch :
      Call
      → Option (W → W × Option ℕ)
      → (Metrics × W → (Metrics × W) × Ending)
      → Metrics × W
      → (Metrics × W) × Ending
  dispatch call hook call_next (m, w) =
      if str_eq call.path "/metrics"
      then call_next (m, w)
      else (let begun = record m {
        in_progress = bump (λ n. n +ℤ pos 1) call.method m.in_progress;
      } in
          let ((m', w'), ending) = attempt hook call_next (begun, w) in
          ((finish_call call ending (count_exception call ending m'), w'), ending))
