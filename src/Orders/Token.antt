-- ===== src/Orders/Token.antt =====
-- The token of an order: `(authorization or "").removeprefix("Bearer ").strip() or "demo-token"`,
-- where the header is the text of its bytes in Latin-1.
use auto_sre.Prelude.{ℕ, zero, suc, Option, none, some, if◌then◌else◌}
use auto_sre.Prelude.Text.{String, starts_with}
use auto_sre.RateLimit.Text.{strip, is_empty}

-- `s[n:]`
abbrev pub skip : ℕ → String → String
skip zero s = s
skip (suc n) String.[] = String.[]
skip (suc n) (String.◌∷◌ c s) = skip n s

-- `s.removeprefix("Bearer ")`
unfoldable pub without_bearer : String → String
without_bearer s = if starts_with s "Bearer " then skip 7 s else s

abbrev pub header_or_empty : Option String → String
header_or_empty none = ""
header_or_empty (some value) = value

abbrev pub or_demo : String → String
or_demo token = if is_empty token then "demo-token" else token

unfoldable pub order_token : Option String → String
unfolding without_bearer
order_token authorization = or_demo (strip (without_bearer (header_or_empty authorization)))

-- `len(s)`
abbrev pub text_length : String → ℕ
text_length String.[] = zero
text_length (String.◌∷◌ c s) = suc (text_length s)
