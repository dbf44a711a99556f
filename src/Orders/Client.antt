-- ===== src/Orders/Client.antt =====
-- `HTTPServiceClient` of shared/autosre_shared/clients/service_client.py, over a transport that the
-- program has of httpx.
use auto_sre.Prelude.{
  ℕ, ◌==◌, ◌≡◌, refl, ◌∙◌, ap, Bool, true, false, ◌&&◌, Option, none, some, [], ◌∷◌, arith,
  if◌then◌else◌, Bool-cases, Option-cases, inl, inr,
}
use Prim.Native.Char.{code}
use Prim.Native.String.{◌++◌}
use auto_sre.Prelude.Text.{String, str_eq, eq_iff}
use auto_sre.Storage.Json.{Json, bool, str, obj, end, field}
use auto_sre.RateLimit.Text.{is_empty}
use auto_sre.Breaker.Protect.{Outcome, returned, raised}
use auto_sre.Observability.Asgi.{Headers, Vars, propagation_headers, scope_header}
use auto_sre.Orders.Create.{CallError, failure}
use auto_sre.Orders.Validate.{Verdict, verdict, unavailable, unprocessable, server_error, dropped}
use auto_sre.Orders.Chain.{received}

-- `s.rstrip("/")`
pub rstrip_slash : String → String
rstrip_slash String.[] = String.[]
rstrip_slash (String.◌∷◌ c s) =
    let rest = rstrip_slash s in
    if is_empty rest && code c == b'/' then String.[] else String.◌∷◌ c rest

abbrev ends_with_slash : String → Bool
ends_with_slash String.[] = false
ends_with_slash (String.◌∷◌ c s) = if is_empty s then code c == b'/' else ends_with_slash s

-- `d[key] = value` on a dict of headers.
unfoldable pub set_header : String → String → Headers → Headers
set_header key value [] = (key, value) ∷ []
set_header key value ((k, v) ∷ headers) =
    if str_eq k key then (k, value) ∷ headers else (k, v) ∷ set_header key value headers

-- `{**first, **second}`
pub merged : Headers → Headers → Headers
merged first [] = first
merged first ((k, v) ∷ second) = merged (set_header k v first) second

-- The headers of a call made in the context `vars`, with the caller's own.
pub call_headers : Vars → Headers → Headers
call_headers vars own = merged (propagation_headers vars) own

-- What comes back: a response with its status and, if that is JSON, its body; or no response, where
-- the transport raises an exception of its own.
pub data Reply : Type 0 where
  response : ℕ → Option Json → Reply
  no_response : Reply

pub data Method : Type 0 where
  get : Method
  post : Json → Method

-- What a client was made with.
pub record Client : Type 0 where
  pub base_url : String
  pub closed : Bool

unfoldable pub http_client : String → Client
http_client base_url = record { base_url = rstrip_slash base_url; closed = false }

-- `aclose`
unfoldable pub aclose : Client → Client
aclose c = record c { closed = true }

-- `circuit_breaker_open_handler` on the error of a breaker of that name.
unfoldable pub open_reply : String → Reply
open_reply name = response 503 (
    some (
      obj (
        field "detail" (str ("circuit breaker '" ++ name ++ "' is open"))
          (field "circuit" (str name) (field "state" (str "open") end)))))

-- The Auth service's answers over HTTP, with any body for the 422 and the 500.
unfoldable pub http_answer : Option Json → Verdict → Reply
http_answer detail (verdict valid token) =
    response 200 (some (obj (field "valid" (bool valid) (field "token" (str token) end))))
http_answer detail (unavailable name) = open_reply name
http_answer detail unprocessable = response 422 detail
http_answer detail server_error = response 500 detail
http_answer detail dropped = no_response

-- `is_error` is whether `raise_for_status` raises for a status.
module _ (is_error : ℕ → Bool) where
  -- The end of both calls: `raise_for_status` and `json`, whose exceptions are `Exception`s.
  unfoldable pub finish : Reply → Outcome Json CallError
  finish (response status none) = raised failure
  finish (response status (some body)) = if is_error status then raised failure else returned body
  finish no_response = raised failure

  answer_received :
      (detail : Option Json) (v : Verdict)
      → is_error 200 ≡ false
      → is_error 422 ≡ true
      → is_error 500 ≡ true
      → is_error 503 ≡ true
      → finish (http_answer detail v) ≡ received v
  unfolding finish http_answer open_reply received
  answer_received detail (verdict valid token) ok bad failed shut = rw ok refl
  answer_received detail (unavailable name) ok bad failed shut = rw shut refl
  answer_received none unprocessable ok bad failed shut = refl
  answer_received (some body) unprocessable ok bad failed shut = rw bad refl
  answer_received none server_error ok bad failed shut = refl
  answer_received (some body) server_error ok bad failed shut = rw failed refl
  answer_received detail dropped ok bad failed shut = refl

  module _ (send : Method → String → Headers → Reply) where
    unfoldable get_json : Client → Vars → String → Headers → Outcome Json CallError
    get_json c vars path own = finish (send get (c.base_url ++ path) (call_headers vars own))

    unfoldable pub post_json : Client → Vars → String → Json → Headers → Outcome Json CallError
    post_json c vars path body own =
        finish (send (post body) (c.base_url ++ path) (call_headers vars own))

    -- If the transport brings the Auth service's answer to POST /validate back as it was given, the
    -- client's call ends as the order route expects: with the body of a verdict, and else with an
    -- exception. `is_error` is asked of the four statuses only.
    pub post_json-received :
        (c : Client) (vars : Vars) (path : String) (body : Json) (own : Headers)
        (detail : Option Json) (v : Verdict)
        → is_error 200 ≡ false
        → is_error 422 ≡ true
        → is_error 500 ≡ true
        → is_error 503 ≡ true
        → send (post body) (c.base_url ++ path) (call_headers vars own) ≡ http_answer detail v
        → post_json c vars path body own ≡ received v
    unfolding post_json
    post_json-received c vars path body own detail v ok bad failed shut e =
        ap finish e ∙ answer_received detail v ok bad failed shut

-- The last value of a name; a dict has one at most.
abbrev pub last_header : String → Headers → Option String
last_header key [] = none
last_header key ((k, v) ∷ headers) =
    let rest = last_header key headers in
    elim rest [ some value ↦ some value | none ↦ if str_eq k key then some v else none ]

abbrev or_else_header : Option String → Option String → Option String
or_else_header (some value) other = some value
or_else_header none other = other

pub scope_header-set_header :
    (key k v : String) (headers : Headers)
    → scope_header key (set_header k v headers)
      ≡ (if str_eq k key then some v else scope_header key headers)
unfolding set_header scope_header
scope_header-set_header key k v [] = refl
scope_header-set_header key k v ((j, old) ∷ headers) =
    ground (arith, eq_iff j k, eq_iff j key, eq_iff k key, scope_header-set_header key k v headers)

pub scope_header-merged :
    (key : String) (second first : Headers)
    → scope_header key (merged first second)
      ≡ or_else_header (last_header key second) (scope_header key first)
unfolding merged
scope_header-merged key [] first = refl
scope_header-merged key ((k, v) ∷ second) first =
    scope_header-merged key second (set_header k v first)
    ∙ elim (Option-cases (last_header key second)) [
      | inl missing ↦ rw (missing, scope_header-set_header key k v first) (ground arith)
      | inr (value, there) ↦ rw there refl
    ]

-- A call carries the caller's own headers, and of the context the correlation id, under its name,
-- unless the caller sets that name.
scope_header-call_headers :
    (key : String) (vars : Vars) (own : Headers)
    → scope_header key (call_headers vars own)
      ≡ or_else_header (last_header key own) (scope_header key (propagation_headers vars))
unfolding call_headers
scope_header-call_headers key vars own = scope_header-merged key own (propagation_headers vars)

-- The base of a client's URLs does not end in a slash.
base_url-unslashed : (s : String) → ends_with_slash (http_client s).base_url ≡ false
unfolding http_client rstrip_slash
base_url-unslashed s = unslashed s
  where
    unslashed : (s : String) → ends_with_slash (rstrip_slash s) ≡ false
    unslashed String.[] = refl
    unslashed (String.◌∷◌ c s) =
        let rest = unslashed s in
        elim (Bool-cases (is_empty (rstrip_slash s))) [
          | inl bare ↦ ground arith
          | inr more ↦ ground arith
        ]
