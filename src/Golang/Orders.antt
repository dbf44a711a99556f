-- ===== src/Golang/Orders.antt =====
-- `CreateOrder` of internal/handlers/orders.go, which calls the Auth service through an
-- `AuthValidator`.
use Prim.Native.Char.{code}
use auto_sre.Prelude.{
  ℕ, ◌+◌, Bool, true, false, ◌&&◌, ◌||◌, Option, none, some, leb, ltb, ◌==◌, if◌then◌else◌,
}
use auto_sre.Prelude.Text.{String}
use auto_sre.RateLimit.Text.{is_empty}
use auto_sre.Orders.Token.{without_bearer, header_or_empty, or_demo}
use auto_sre.Orders.Create.{
  Order, Answer, created, unauthorized, bad_gateway, unprocessable, dropped,
}

-- `unicode.IsSpace`
abbrev pub is_space : ℕ → Bool
is_space c =
    leb 9 c && leb c 13
    || c == 32
    || c == 133
    || c == 160
    || c == 5760
    || leb 8192 c && leb c 8202
    || c == 8232
    || c == 8233
    || c == 8239
    || c == 8287
    || c == 12288

unfoldable pub trim_left : String → String
trim_left String.[] = String.[]
trim_left (String.◌∷◌ c s) =
    let rest = trim_left s in if is_space (code c) then rest else String.◌∷◌ c s

unfoldable pub trim_right : String → String
trim_right String.[] = String.[]
trim_right (String.◌∷◌ c s) =
    let rest = trim_right s in
    if is_empty rest && is_space (code c) then String.[] else String.◌∷◌ c rest

-- `strings.TrimSpace`
unfoldable pub trim_space : String → String
unfolding trim_left trim_right
trim_space s = trim_right (trim_left s)

-- The token of an order, whose header is the text of its bytes in UTF-8; `strings.TrimPrefix` is
-- Python's `removeprefix`.
unfoldable pub order_token : Option String → String
order_token authorization = or_demo (trim_space (without_bearer (header_or_empty authorization)))

-- `len` of a string counts the bytes of its characters in UTF-8.
abbrev bytes_of : ℕ → ℕ
bytes_of c = if ltb c 128 then 1 else if ltb c 2048 then 2 else if ltb c 65536 then 3 else 4

unfoldable pub len : String → ℕ
len String.[] = 0
len (String.◌∷◌ c s) = bytes_of (code c) + len s

-- `validate` of an order.
unfoldable pub valid_order : Order → Bool
valid_order order =
    leb 1 (len order.item)
    && leb (len order.item) 100
    && leb 1 order.quantity
    && leb order.quantity 1000

-- What is made of the verdict on the token; a client that has gone away gets no answer.
unfoldable pub answer : Bool → Order → Option Bool → Answer
answer gone order none = bad_gateway
answer gone order (some false) = unauthorized
answer gone order (some true) = if gone then dropped else created order

-- `auth` is the `AuthValidator`, where `none` is an error.
unfoldable pub create_order : (String → Option Bool) → Bool → Order → Option String → Answer
create_order auth gone order authorization =
    if valid_order order
    then answer gone order (auth (order_token authorization))
    else unprocessable
