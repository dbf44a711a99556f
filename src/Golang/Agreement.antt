-- ===== src/Golang/Agreement.antt =====
-- What the Go service reads of an order against what the Python one reads of it.
use Prim.Native.Char.{Char, code}
use auto_sre.Prelude.{
  ℕ, zero, suc, ◌≡◌, refl, ◌∙◌, ap, Bool, true, false, ◌&&◌, ◌||◌, Option, arith, leb, ltb,
  Bool-cases, inl, inr,
}
use auto_sre.Prelude.Text.{String, starts_with}
use auto_sre.RateLimit.Text.{is_empty, lstrip, rstrip, strip}
use auto_sre.RateLimit.Text as Text
use auto_sre.Orders.Token.{skip, without_bearer, header_or_empty, or_demo, text_length}
use auto_sre.Orders.Token as Token
use auto_sre.Orders.Create.{Order}
use auto_sre.Orders.Create as Create
use auto_sre.Golang.Orders.{
  is_space, trim_left, trim_right, trim_space, order_token, len, valid_order,
}

-- The four characters that Python takes for white space and Go does not.
abbrev is_separator : ℕ → Bool
is_separator c = leb 28 c && leb c 31

abbrev pub has_separator : String → Bool
has_separator String.[] = false
has_separator (String.◌∷◌ c s) = is_separator (code c) || has_separator s

abbrev pub is_ascii : String → Bool
is_ascii String.[] = true
is_ascii (String.◌∷◌ c s) = ltb (code c) 128 && is_ascii s

plain_parts :
    (c : Char) (s : String)
    → has_separator (String.◌∷◌ c s) ≡ false
    → (is_separator (code c) ≡ false) × (has_separator s ≡ false)
plain_parts c s plain = elim (Bool-cases (is_separator (code c))) [
  | inl bad ↦ ground arith
  | inr good ↦ (good, ground arith)
]

is_space_agrees : (c : ℕ) → is_separator c ≡ false → is_space c ≡ Text.is_space c
is_space_agrees c plain = elim (Bool-cases (leb 28 c)) [
  | inl high ↦ ground arith
  | inr low ↦ ground arith
]

len-text_length : (s : String) → is_ascii s ≡ true → len s ≡ text_length s
unfolding len
len-text_length String.[] plain = refl
len-text_length (String.◌∷◌ c s) plain =
    let ih : is_ascii s ≡ true → len s ≡ text_length s = len-text_length s in ground arith

trim_left-lstrip : (s : String) → has_separator s ≡ false → trim_left s ≡ lstrip s
unfolding trim_left lstrip
trim_left-lstrip String.[] plain = refl
trim_left-lstrip (String.◌∷◌ c s) plain =
    let (first, rest) = plain_parts c s plain in
    rw (is_space_agrees (code c) first, trim_left-lstrip s rest) refl

trim_right-rstrip : (s : String) → has_separator s ≡ false → trim_right s ≡ rstrip s
unfolding trim_right rstrip
trim_right-rstrip String.[] plain = refl
trim_right-rstrip (String.◌∷◌ c s) plain =
    let (first, rest) = plain_parts c s plain in
    rw (is_space_agrees (code c) first, trim_right-rstrip s rest) refl

lstrip-plain : (s : String) → has_separator s ≡ false → has_separator (lstrip s) ≡ false
unfolding lstrip
lstrip-plain String.[] plain = refl
lstrip-plain (String.◌∷◌ c s) plain =
    let (first, rest) = plain_parts c s plain in
    elim (Bool-cases (Text.is_space (code c))) [
      | inl blank ↦ rw blank (lstrip-plain s rest)
      | inr full ↦ rw full plain
    ]

skip-plain : (n : ℕ) (s : String) → has_separator s ≡ false → has_separator (skip n s) ≡ false
skip-plain zero s plain = plain
skip-plain (suc n) String.[] plain = refl
skip-plain (suc n) (String.◌∷◌ c s) plain = skip-plain n s (plain_parts c s plain).1

without_bearer-plain :
    (s : String) → has_separator s ≡ false → has_separator (without_bearer s) ≡ false
unfolding without_bearer
without_bearer-plain s plain = elim (Bool-cases (starts_with s "Bearer ")) [
  | inl bearer ↦ rw bearer (skip-plain 7 s plain)
  | inr bare ↦ rw bare plain
]

-- Both services read the same token.
pub order_token_agrees :
    (authorization : Option String)
    → has_separator (header_or_empty authorization) ≡ false
    → order_token authorization ≡ Token.order_token authorization
unfolding order_token Token.order_token trim_space strip
order_token_agrees authorization plain =
    let s = without_bearer (header_or_empty authorization) in
    let free = without_bearer-plain (header_or_empty authorization) plain in
    ap or_demo
      (ap trim_right (trim_left-lstrip s free) ∙ trim_right-rstrip (lstrip s) (lstrip-plain s free))

pub valid_order_agrees :
    (order : Order) → is_ascii order.item ≡ true → valid_order order ≡ Create.valid_order order
unfolding valid_order Create.valid_order
valid_order_agrees order plain = rw (len-text_length order.item plain) (ground arith)
