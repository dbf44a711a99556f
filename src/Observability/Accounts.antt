-- ===== src/Observability/Accounts.antt =====
-- What `PrometheusMiddleware` counts, over sequences of requests.
use auto_sre.Prelude.{
  ℕ, ◌≡◌, refl, false, Option, none, some, List, [], ◌∷◌, ◌++◌, arith, Bool-cases, Option-cases,
  inl, inr, sym, append-nil,
}
use auto_sre.Prelude.Int.{ℤ, pos, ◌+ℤ◌, ◌-ℤ◌, eq_of_parts, +ℤ_parts, -ℤ_parts}
use auto_sre.Prelude.Text.{String, str_eq}
use auto_sre.Observability.Red.{
  Metrics, Ending, response, raised, interrupted, Call, route_label, bump, count_exception,
  status_of, finish_call, attempt, dispatch,
}

-- An application that leaves these metrics alone.
abbrev LeavesMetrics : {W : Type 0} → (Metrics × W → (Metrics × W) × Ending) → Type 0
LeavesMetrics {W} call_next = (s : Metrics × W) → (call_next s).0.0 ≡ s.0

abbrev pub exceptions_of : Call → Ending → List (String × String × String)
exceptions_of call (response status) = []
exceptions_of call (raised kind) = (call.method, route_label call, kind) ∷ []
exceptions_of call interrupted = []

add_sub : (n : ℤ) → n +ℤ pos 1 -ℤ pos 1 ≡ n
add_sub n =
    eq_of_parts (n +ℤ pos 1 -ℤ pos 1) n
      (omega (arith, +ℤ_parts n (pos 1), -ℤ_parts (n +ℤ pos 1) (pos 1)))

bump_back :
    (method k : String) (gauge : String → ℤ)
    → bump (λ n. n -ℤ pos 1) method (bump (λ n. n +ℤ pos 1) method gauge) k ≡ gauge k
bump_back method k gauge = elim (Bool-cases (str_eq method k)) [
  | inl same ↦ rw same (add_sub (gauge k))
  | inr apart ↦ rw apart refl
]

abbrev begin : Call → Metrics → Metrics
begin call m = record m { in_progress = bump (λ n. n +ℤ pos 1) call.method m.in_progress }

account :
    (call : Call) (ending : Ending) (m : Metrics)
    → let m' = finish_call call ending (count_exception call ending (begin call m)) in
      (m'.requests ≡ m.requests ++ (call.method, route_label call, status_of ending) ∷ [])
      × (m'.durations ≡ m.durations ++ (call.method, route_label call) ∷ [])
      × (m'.exceptions ≡ m.exceptions ++ exceptions_of call ending)
      × ((k : String) → m'.in_progress k ≡ m.in_progress k)
unfolding finish_call count_exception
account call (response status) m =
    (refl, refl, sym (append-nil _), λ k. bump_back call.method k m.in_progress)
account call (raised kind) m = (refl, refl, refl, λ k. bump_back call.method k m.in_progress)
account call interrupted m =
    (refl, refl, sym (append-nil _), λ k. bump_back call.method k m.in_progress)

module _ {W : Type 0} where
  attempt_leaves :
      (hook : Option (W → W × Option ℕ)) (call_next : Metrics × W → (Metrics × W) × Ending)
      (s : Metrics × W)
      → LeavesMetrics call_next
      → (attempt hook call_next s).0.0 ≡ s.0
  unfolding attempt
  attempt_leaves none call_next s leaves = leaves s
  attempt_leaves (some hook) call_next (m, w) leaves = elim (Option-cases (hook w).1) [
    | inl passed ↦ rw (attempt, passed) (leaves (m, (hook w).0))
    | inr (status, injected) ↦ rw (attempt, injected) refl
  ]

  -- Around an application that leaves these metrics alone, every request but those of /metrics adds
  -- one count, under its method, its route and the status of the response or 500 without one, and
  -- one duration; it adds an exception exactly if an `Exception` came out of the application, and
  -- the number of requests in progress is afterwards what it was. The ending passes through.
  pub dispatch_accounts :
      (call : Call) (hook : Option (W → W × Option ℕ))
      (call_next : Metrics × W → (Metrics × W) × Ending) (m : Metrics) (w : W)
      → LeavesMetrics call_next
      → str_eq call.path "/metrics" ≡ false
      → let ((m', w'), ending) = dispatch call hook call_next (m, w) in
        (m'.requests ≡ m.requests ++ (call.method, route_label call, status_of ending) ∷ [])
        × (m'.durations ≡ m.durations ++ (call.method, route_label call) ∷ [])
        × (m'.exceptions ≡ m.exceptions ++ exceptions_of call ending)
        × ((k : String) → m'.in_progress k ≡ m.in_progress k)
  unfolding dispatch
  dispatch_accounts call hook call_next m w leaves counted =
      rw (counted, attempt_leaves hook call_next (begin call m, w) leaves)
        (account call (attempt hook call_next (begin call m, w)).1 m)
