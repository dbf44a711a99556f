-- ===== src/Service/Tally.antt =====
-- Counts of what Prometheus shows, and the endings of a service's own routes.
use auto_sre.Prelude.{ℕ, ◌+◌, ◌≡◌, Bool, false, List, [], ◌∷◌, ◌++◌, arith, ◌==◌, if◌then◌else◌}
use auto_sre.Prelude.Text.{String, str_eq}
use auto_sre.Observability.Red.{Ending, response, raised, interrupted}

abbrev pub tally : Bool → ℕ
tally b = if b then 1 else 0

-- The requests counted with a status, and the exceptions counted of a type.
abbrev pub with_status : ℕ → List (String × String × ℕ) → ℕ
with_status status [] = 0
with_status status ((_, _, n) ∷ requests) = tally (n == status) + with_status status requests

abbrev pub of_type : String → List (String × String × String) → ℕ
of_type kind [] = 0
of_type kind ((_, _, k) ∷ exceptions) = tally (str_eq k kind) + of_type kind exceptions

pub with_status-append :
    (status n : ℕ) (requests : List (String × String × ℕ)) (method label : String)
    → with_status status (requests ++ (method, label, n) ∷ [])
      ≡ with_status status requests + tally (n == status)
with_status-append status n [] method label = omega arith
with_status-append status n (r ∷ requests) method label =
    omega (arith, with_status-append status n requests method label)

pub of_type-append :
    (kind : String) (xs ys : List (String × String × String))
    → of_type kind (xs ++ ys) ≡ of_type kind xs + of_type kind ys
of_type-append kind [] ys = omega arith
of_type-append kind (x ∷ xs) ys = omega (arith, of_type-append kind xs ys)

-- How a route of the service's own ends: with a status other than 429 and 500, or with an exception
-- other than an OverflowError.
abbrev pub IsPlain : Ending → Type 0
IsPlain (response status) = (status == 429 ≡ false) × (status == 500 ≡ false)
IsPlain (raised kind) = str_eq kind "OverflowError" ≡ false
IsPlain interrupted = ⊥
