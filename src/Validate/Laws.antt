-- ===== src/Validate/Laws.antt =====
-- What it takes for the parts of the script to find nothing.
use auto_sre.Prelude.{
  ◌≡◌, refl, Bool, true, false, Option, none, some, List, [], ◌∷◌, All, arith, if◌then◌else◌,
}
use auto_sre.Validate.Values.{Problem, Check, fine, report, also, each, ◌>>=◌}

pub bind-some :
    {A B : Type 0} (o : Option A) (f : A → Option B) (b : B)
    → (o >>= f) ≡ some b
    → (a : A) × (o ≡ some a) × (f a ≡ some b)
bind-some none f b e = grind arith
bind-some (some a) f b e = (a, refl, e)

pub also-fine : (a b : Check) → also a b ≡ fine → (a ≡ fine) × (b ≡ fine)
unfolding also
also-fine none b e = grind arith
also-fine (some ps) none e = grind arith
also-fine (some []) (some []) e = (refl, refl)
also-fine (some []) (some (q ∷ qs)) e = grind arith
also-fine (some (p ∷ ps)) (some qs) e = grind arith

pub each-fine :
    {A : Type 0} (check : A → Check) (xs : List A)
    → each check xs ≡ fine
    → All (λ x. check x ≡ fine) xs
unfolding each
each-fine check [] e = tt
each-fine check (x ∷ xs) e =
    let (first, rest) = also-fine (check x) (each check xs) e in (first, each-fine check xs rest)

pub if-fine : (b : Bool) (p : Problem) → (if b then fine else report p) ≡ fine → b ≡ true
if-fine true p e = refl
if-fine false p e = grind arith

pub All-map :
    {A : Type 0} {P Q : A → Type 0} → ((a : A) → P a → Q a) → (xs : List A) → All P xs → All Q xs
All-map f [] h = tt
All-map f (x ∷ xs) (h, hs) = (f x h, All-map f xs hs)
