-- ===== src/Golang/Counts.antt =====
-- Counters and histograms of the network daemon by their labels.
use auto_sre.Prelude.{
  ℕ, ◌+◌, ◌≡◌, refl, ◌∙◌, Bool, true, false, ◌&&◌, List, [], ◌∷◌, ◌++◌, arith, if◌then◌else◌,
}
use auto_sre.Prelude.Text.{String, str_eq}
use auto_sre.Golang.Prober.{Counted}

abbrev pub tally : Bool → ℕ
tally b = if b then 1 else 0

-- The value of a counter at its labels.
abbrev pub count : String → String → Counted → ℕ
count target check [] = 0
count target check ((t, c) ∷ labels) =
    tally (str_eq t target && str_eq c check) + count target check labels

abbrev pub count_name : String → List String → ℕ
count_name target [] = 0
count_name target (t ∷ names) = tally (str_eq t target) + count_name target names

abbrev pub observations : {A : Type 0} → String → List (String × A) → ℕ
observations target [] = 0
observations target ((t, a) ∷ seen) = tally (str_eq t target) + observations target seen

pub count-append :
    (target check t c : String) (labels : Counted)
    → count target check (labels ++ (t, c) ∷ [])
      ≡ count target check labels + tally (str_eq t target && str_eq c check)
count-append target check t c [] = omega arith
count-append target check t c ((a, b) ∷ labels) =
    omega (arith, count-append target check t c labels)

pub count_name-append :
    (target t : String) (names : List String)
    → count_name target (names ++ t ∷ []) ≡ count_name target names + tally (str_eq t target)
count_name-append target t [] = omega arith
count_name-append target t (a ∷ names) = omega (arith, count_name-append target t names)

pub observations-append :
    {A : Type 0} (target t : String) (a : A) (seen : List (String × A))
    → observations target (seen ++ (t, a) ∷ []) ≡ observations target seen + tally (str_eq t target)
observations-append target t a [] = omega arith
observations-append target t a ((b, c) ∷ seen) = omega (arith, observations-append target t a seen)

pub and_true : (b : Bool) → tally (b && true) ≡ tally b
and_true true = refl
and_true false = refl

pub and_false : (b : Bool) → tally (b && false) ≡ 0
and_false true = refl
and_false false = refl

pub other_check :
    (target t c check : String) (labels : Counted)
    → str_eq c check ≡ false
    → count target check (labels ++ (t, c) ∷ []) ≡ count target check labels
other_check target t c check labels other =
    count-append target check t c labels ∙ rw other (omega (arith, and_false (str_eq t target)))

pub same_check :
    (target t check : String) (labels : Counted)
    → str_eq check check ≡ true
    → count target check (labels ++ (t, check) ∷ [])
      ≡ count target check labels + tally (str_eq t target)
same_check target t check labels same =
    count-append target check t check labels ∙ rw same (omega (arith, and_true (str_eq t target)))
