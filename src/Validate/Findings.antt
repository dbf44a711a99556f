-- ===== src/Validate/Findings.antt =====
-- What a loop over rule files, groups or rules finds, from what its steps find.
use auto_sre.Prelude.{
  ◌≡◌, ◌∙◌, ap, true, Option, some, List, [], ◌∷◌, ◌++◌, All, ◌⊎◌, inl, inr, arith,
}
use mathlib.Core.List.{append-eq-nil_iff}
use mathlib.Core.Option.{some-injective}
use auto_sre.Prelude.Text.{String}
use auto_sre.Storage.Json.{Json}
use auto_sre.Validate.Laws.{bind-some}
use auto_sre.Validate.Rules.{Found, joined, find_all, is_recorded}

abbrev pub Some : {A : Type 0} → (A → Type 0) → List A → Type 0
Some P [] = ⊥
Some P (x ∷ xs) = P x ⊎ Some P xs

-- A step that found something and reported nothing.
abbrev pub Quiet : {A : Type 0} → (A → Option Found) → A → Type 0
Quiet find x = (f : Found) × (find x ≡ some f) × (f.problems ≡ [])

-- A step that recorded a name.
abbrev pub Adds : {A : Type 0} → (A → Option Found) → String → A → Type 0
Adds find name x = (f : Found) × (find x ≡ some f) × (is_recorded name f.recorded ≡ true)

find_all-cons :
    {A : Type 0} (find : A → Option Found) (x : A) (xs : List A) (f : Found)
    → find_all find (x ∷ xs) ≡ some f
    → (g : Found) × (h : Found) × (find x ≡ some g) × (find_all find xs ≡ some h) × (joined g h ≡ f)
unfolding find_all
find_all-cons find x xs f e =
    let (g, here, e') = bind-some (find x) _ f e in
    let (h, there, e'') = bind-some (find_all find xs) _ f e' in
    (g, h, here, there, some-injective _ _ e'')

pub find_all-Quiet :
    {A : Type 0} (find : A → Option Found) (xs : List A) (f : Found)
    → find_all find xs ≡ some f
    → f.problems ≡ []
    → All (Quiet find) xs
find_all-Quiet find [] f e silent = tt
find_all-Quiet find (x ∷ xs) f e silent =
    let (g, h, here, there, all) = find_all-cons find x xs f e in
    let (split, join) = append-eq-nil_iff {p = g.problems} {q = h.problems} in
    let (first, rest) = split (ap (λ (k : Found). k.problems) all ∙ silent) in
    ((g, here, first), find_all-Quiet find xs h there rest)

recorded-append :
    (name : String) (vs ws : List Json)
    → is_recorded name (vs ++ ws) ≡ true
    → (is_recorded name vs ≡ true) ⊎ (is_recorded name ws ≡ true)
unfolding is_recorded
recorded-append name [] ws h = inr h
recorded-append name (v ∷ vs) ws h = ground (arith, recorded-append name vs ws)

pub find_all-Adds :
    {A : Type 0} (find : A → Option Found) (name : String) (xs : List A) (f : Found)
    → find_all find xs ≡ some f
    → is_recorded name f.recorded ≡ true
    → Some (Adds find name) xs
unfolding find_all is_recorded
find_all-Adds find name [] f e added =
    let empty : [] ≡ f.recorded = ap (λ (k : Found). k.recorded) (some-injective _ _ e) in
    grind arith
find_all-Adds find name (x ∷ xs) f e added =
    let (g, h, here, there, all) = find_all-cons find x xs f e in
    let both = ap (λ (k : Found). is_recorded name k.recorded) all ∙ added in
    elim (recorded-append name g.recorded h.recorded both) [
      | inl first ↦ inl (g, here, first)
      | inr later ↦ inr (find_all-Adds find name xs h there later)
    ]

pub Some-map :
    {A : Type 0} {P Q : A → Type 0} → ((a : A) → P a → Q a) → (xs : List A) → Some P xs → Some Q xs
Some-map f [] h = h
Some-map f (x ∷ xs) (inl h) = inl (f x h)
Some-map f (x ∷ xs) (inr h) = inr (Some-map f xs h)
