-- ===== src/Service/Env.antt =====
-- `validate_env` of shared/autosre_shared/envcheck.py.
use auto_sre.Prelude.{
  ◌≡◌, refl, Bool, true, false, ◌↔◌, Option, none, some, List, [], ◌∷◌, ◌++◌, All, if◌then◌else◌,
  arith, Option-cases, Bool-cases, inl, inr,
}
use mathlib.Core.List.{append-eq-nil_iff, cons≢nil}
use auto_sre.Prelude.Text.{String, str_eq}

-- `int` and `float`, the casters of `_NUMERIC`.
pub data Caster : Type 0 where
  int : Caster
  float : Caster

abbrev numeric : List (String × Caster)
numeric =
    ("PORT", int)
    ∷ ("RATE_LIMIT_RPS", float)
    ∷ ("RATE_LIMIT_BURST", float)
    ∷ ("WORKER_INTERVAL", float)
    ∷ ("WORKER_JOB_SECONDS", float)
    ∷ ("AUTH_DEP_LATENCY", float)
    ∷ []

-- The messages, by what they say.
pub data Problem : Type 0 where
  missing : String → Problem
  not_valid : String → String → Caster → Problem

-- `getenv` is `os.getenv`, and `casts` whether a caster takes a text without a `ValueError`.
module _ (getenv : String → Option String) (casts : Caster → String → Bool) where
  abbrev check_value : String → Caster → Option String → List Problem
  check_value name caster none = []
  check_value name caster (some raw) =
      if str_eq raw "" then [] else if casts caster raw then [] else not_valid name raw caster ∷ []

  abbrev check_required : String → Option String → List Problem
  check_required name none = missing name ∷ []
  check_required name (some raw) = if str_eq raw "" then missing name ∷ [] else []

  -- The two loops.
  unfoldable pub required_problems : List String → List Problem
  required_problems [] = []
  required_problems (name ∷ names) = check_required name (getenv name) ++ required_problems names

  unfoldable pub numeric_problems : List (String × Caster) → List Problem
  numeric_problems [] = []
  numeric_problems ((name, caster) ∷ names) =
      check_value name caster (getenv name) ++ numeric_problems names

  -- `validate_env`: it returns if there is no problem, and else raises a `RuntimeError` of them.
  unfoldable pub validate_env : List String → List Problem
  validate_env required = required_problems required ++ numeric_problems numeric

  -- A variable that is set to some text that is not empty.
  abbrev IsSetTo : String → String → Type 0
  IsSetTo name raw = (getenv name ≡ some raw) × (str_eq raw "" ≡ false)

  pub data Present (name : String) : Type 0 where
    present : (raw : String) → IsSetTo name raw → Present name

  abbrev pub WellFormed : String × Caster → Type 0
  WellFormed (name, caster) = (raw : String) → IsSetTo name raw → casts caster raw ≡ true

  absent_none : (name : String) → getenv name ≡ none → ¬ Present name
  absent_none name unset (present raw (e, full)) = grind arith

  absent_empty :
      (name raw : String) → getenv name ≡ some raw → str_eq raw "" ≡ true → ¬ Present name
  absent_empty name raw e empty (present raw' (e', full)) = grind arith

  required_one : (name : String) → (check_required name (getenv name) ≡ []) ↔ Present name
  required_one name = elim (Option-cases (getenv name)) [
    | inl unset ↦ rw unset ((λ h. absurd (cons≢nil h)), λ p. absurd (absent_none name unset p))
    | inr (raw, e) ↦ elim (Bool-cases (str_eq raw "")) [
      | inl empty ↦
          rw (e, empty) ((λ h. absurd (cons≢nil h)), λ p. absurd (absent_empty name raw e empty p))
      | inr full ↦ rw (e, full) ((λ h. present raw (e, full)), λ p. refl)
    ]
  ]

  numeric_one :
      (name : String) (caster : Caster)
      → (check_value name caster (getenv name) ≡ []) ↔ WellFormed (name, caster)
  numeric_one name caster = elim (Option-cases (getenv name)) [
    | inl unset ↦ rw unset ((λ h raw (e, full). grind arith), λ p. refl)
    | inr (raw, e) ↦ elim (Bool-cases (str_eq raw "")) [
      | inl empty ↦ rw (e, empty) ((λ h raw' (e', full). grind arith), λ p. refl)
      | inr full ↦ elim (Bool-cases (casts caster raw)) [
        | inl good ↦ rw (e, full, good) ((λ h raw' (e', full'). grind arith), λ p. refl)
        | inr bad ↦
            rw (e, full, bad)
              ((λ h. absurd (cons≢nil h)), λ p. (let good = p raw (refl, full) in ground arith))
      ]
    ]
  ]

  required_clean : (names : List String) → (required_problems names ≡ []) ↔ All Present names
  unfolding required_problems
  required_clean [] = ((λ h. tt), λ h. refl)
  required_clean (name ∷ names) =
      let (split, join) = append-eq-nil_iff in
      (
        (λ h. ((required_one name).0 (split h).0, (required_clean names).0 (split h).1)),
        λ p. join ((required_one name).1 p.0, (required_clean names).1 p.1),
      )

  numeric_clean :
      (names : List (String × Caster)) → (numeric_problems names ≡ []) ↔ All WellFormed names
  unfolding numeric_problems
  numeric_clean [] = ((λ h. tt), λ h. refl)
  numeric_clean ((name, caster) ∷ names) =
      let (split, join) = append-eq-nil_iff in
      (
        (λ h. ((numeric_one name caster).0 (split h).0, (numeric_clean names).0 (split h).1)),
        λ p. join ((numeric_one name caster).1 p.0, (numeric_clean names).1 p.1),
      )

  -- A service starts exactly if each required variable is set and not empty, and each numeric
  -- variable that is set and not empty is one that its caster takes.
  pub validate_env-accepts :
      (required : List String)
      → (validate_env required ≡ []) ↔ (All Present required × All WellFormed numeric)
  unfolding validate_env
  validate_env-accepts required =
      let (split, join) = append-eq-nil_iff in
      (
        (λ h. ((required_clean required).0 (split h).0, (numeric_clean numeric).0 (split h).1)),
        λ p. join ((required_clean required).1 p.0, (numeric_clean numeric).1 p.1),
      )
