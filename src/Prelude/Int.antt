-- ===== src/Prelude/Int.antt =====
-- Signed integers over the native numbers, under the library's names (its ℤ stands on the unary ℕ).
-- Sums and orders go through the two parts of an integer, which are numbers that `omega` reads.
use auto_sre.Prelude.{
  ℕ, suc, ◌+◌, ◌-◌, ◌*◌, ◌≤◌, ◌≡◌, ap, ◌∙◌, Bool, true, arith, ltb, leb, if◌then◌else◌,
}

-- `negsuc n` is -(n + 1).
pub data ℤ : Type 0 where
  pos : ℕ → ℤ
  negsuc : ℕ → ℤ

abbrev pub pos_part : ℤ → ℕ
pos_part (pos n) = n
pos_part (negsuc n) = 0

abbrev pub neg_part : ℤ → ℕ
neg_part (pos n) = 0
neg_part (negsuc n) = suc n

-- a - b, as an integer.
abbrev pub sub_ℕ : ℕ → ℕ → ℤ
sub_ℕ a b = if leb b a then pos (a - b) else negsuc (b - a - 1)

infixl 65 ◌+ℤ◌ ◌-ℤ◌
infixl 70 ◌*ℤ◌
infix 50 ◌≤ℤ◌ ◌<ℤ◌
unfoldable pub ◌+ℤ◌ : ℤ → ℤ → ℤ
a +ℤ b = sub_ℕ (pos_part a + pos_part b) (neg_part a + neg_part b)

unfoldable pub ◌-ℤ◌ : ℤ → ℤ → ℤ
a -ℤ b = sub_ℕ (pos_part a + neg_part b) (neg_part a + pos_part b)

unfoldable pub ◌*ℤ◌ : ℤ → ℤ → ℤ
a *ℤ b =
    sub_ℕ (pos_part a * pos_part b + neg_part a * neg_part b)
      (pos_part a * neg_part b + neg_part a * pos_part b)

abbrev pub ◌≤ℤ◌ : ℤ → ℤ → Type 0
a ≤ℤ b = pos_part a + neg_part b ≤ pos_part b + neg_part a

abbrev pub ◌<ℤ◌ : ℤ → ℤ → Type 0
a <ℤ b = suc (pos_part a + neg_part b) ≤ pos_part b + neg_part a

abbrev pub ltb_ℤ : ℤ → ℤ → Bool
ltb_ℤ a b = ltb (pos_part a + neg_part b) (pos_part b + neg_part a)

abbrev pub leb_ℤ : ℤ → ℤ → Bool
leb_ℤ a b = leb (pos_part a + neg_part b) (pos_part b + neg_part a)

-- Python's `min` and `max`: the first argument wins a tie.
abbrev pub min_ℤ : ℤ → ℤ → ℤ
min_ℤ a b = if ltb_ℤ b a then b else a

abbrev pub max_ℤ : ℤ → ℤ → ℤ
max_ℤ a b = if ltb_ℤ a b then b else a

-- One lemma for each operation lets `omega` work with the operations shut, at any depth.
pub +ℤ_parts :
    (a b : ℤ)
    → pos_part (a +ℤ b) + neg_part a + neg_part b ≡ neg_part (a +ℤ b) + pos_part a + pos_part b
unfolding ◌+ℤ◌
+ℤ_parts a b = ground arith

pub -ℤ_parts :
    (a b : ℤ)
    → pos_part (a -ℤ b) + neg_part a + pos_part b ≡ neg_part (a -ℤ b) + pos_part a + neg_part b
unfolding ◌-ℤ◌
-ℤ_parts a b = ground arith

pub eq_of_parts : (a b : ℤ) → pos_part a + neg_part b ≡ pos_part b + neg_part a → a ≡ b
eq_of_parts a b h = ground arith

pub ruleset int_laws = (arith, +ℤ_parts, -ℤ_parts, eq_of_parts)

-- A product, by its parts; products of parts are unknowns to `omega`.
pub *ℤ_parts :
    (a b : ℤ)
    → pos_part (a *ℤ b) + (pos_part a * neg_part b + neg_part a * pos_part b)
      ≡ neg_part (a *ℤ b) + (pos_part a * pos_part b + neg_part a * neg_part b)
unfolding ◌*ℤ◌
*ℤ_parts a b = ground arith

pub *ℤ_dist : (x y r : ℤ) → (x +ℤ y) *ℤ r ≡ x *ℤ r +ℤ y *ℤ r
*ℤ_dist x y r =
    let e = +ℤ_parts x y in
    omega (
      int_laws,
      *ℤ_parts x r,
      *ℤ_parts y r,
      *ℤ_parts (x +ℤ y) r,
      ap (λ (t : ℕ). t * pos_part r) e,
      ap (λ (t : ℕ). t * neg_part r) e,
    )

-- Equal integers, in the form that `omega` reads.
infix 50 ◌≈ℤ◌
abbrev pub ◌≈ℤ◌ : ℤ → ℤ → Type 0
a ≈ℤ b = (a ≤ℤ b) × (b ≤ℤ a)

pub ≈ℤ_of_eq : (a b : ℤ) → a ≡ b → a ≈ℤ b
≈ℤ_of_eq a b h = ground arith

-- Two stretches of time one after the other bring as much as both at once.
pub *ℤ_split : (a b c r : ℤ) → (c -ℤ a) *ℤ r ≈ℤ (b -ℤ a) *ℤ r +ℤ (c -ℤ b) *ℤ r
*ℤ_split a b c r =
    let e : c -ℤ a ≡ (b -ℤ a) +ℤ (c -ℤ b) = omega int_laws in
    ≈ℤ_of_eq _ _ (ap (λ t. t *ℤ r) e ∙ *ℤ_dist (b -ℤ a) (c -ℤ b) r)

pub *ℤ_nonneg : (a b : ℤ) → pos 0 ≤ℤ a → pos 0 ≤ℤ b → pos 0 ≤ℤ a *ℤ b
unfolding ◌*ℤ◌
*ℤ_nonneg a b h k = ground arith

pub zero-mul_ℤ : (r : ℤ) → pos 0 *ℤ r ≡ pos 0
zero-mul_ℤ r = omega (int_laws, *ℤ_parts (pos 0) r)

pub -ℤ_self_mul : (a r : ℤ) → (a -ℤ a) *ℤ r ≈ℤ pos 0
-ℤ_self_mul a r =
    let e : a -ℤ a ≡ pos 0 = omega int_laws in ≈ℤ_of_eq _ _ (ap (λ t. t *ℤ r) e ∙ zero-mul_ℤ r)

pub min-le_left : (a b : ℤ) → min_ℤ a b ≤ℤ a
min-le_left a b = ground arith

pub min-le_right : (a b : ℤ) → min_ℤ a b ≤ℤ b
min-le_right a b = ground arith

pub min_nonneg : (a b : ℤ) → pos 0 ≤ℤ a → pos 0 ≤ℤ b → pos 0 ≤ℤ min_ℤ a b
min_nonneg a b h k = ground arith

pub leb→≤ℤ : (a b : ℤ) → leb_ℤ a b ≡ true → a ≤ℤ b
leb→≤ℤ a b h = ground arith

pub -ℤ_nonneg : (a b : ℤ) → b ≤ℤ a → pos 0 ≤ℤ a -ℤ b
-ℤ_nonneg a b h = omega int_laws

pub +ℤ_nonneg : (a b : ℤ) → pos 0 ≤ℤ a → pos 0 ≤ℤ b → pos 0 ≤ℤ a +ℤ b
+ℤ_nonneg a b h k = omega int_laws

pub *ℤ_nonpos : (a b : ℤ) → pos 0 ≤ℤ a → b ≤ℤ pos 0 → a *ℤ b ≤ℤ pos 0
unfolding ◌*ℤ◌
*ℤ_nonpos a b h k = ground arith
