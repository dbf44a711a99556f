-- ===== src/Golang/Context.antt =====
-- The ids that a request to a Go service is given.
use auto_sre.Prelude.{◌≡◌, refl, ◌∙◌, ap, Option, none, some, false, arith}
use auto_sre.Prelude.Text.{String, str_eq}
use auto_sre.Observability.Asgi.{Headers, Vars, scope_header, or_else, request_ids}
use auto_sre.Golang.Middleware.{get_header, or_id}

-- The context of a request before the middlewares.
abbrev pub unset : Vars
unset = record { request_id = ""; correlation_id = "" }

-- The ids that the two middlewares give a request.
abbrev pub context_ids : String → String → Headers → Vars
context_ids fresh fresh_chain headers =
    let id = or_id (get_header "x-request-id" headers) fresh in
    record {
      request_id = id;
      correlation_id = or_id (or_id (get_header "x-correlation-id" headers) id) fresh_chain;
    }

abbrev text_or_empty : Option String → String
text_or_empty none = ""
text_or_empty (some value) = value

get_header_lem :
    (name : String) (headers : Headers)
    → get_header name headers ≡ text_or_empty (scope_header name headers)
get_header_lem name headers = ground arith

or_id-or_else :
    (o : Option String) (other : String) → or_id (text_or_empty o) other ≡ or_else o other
or_id-or_else none other = refl
or_id-or_else (some value) other = refl

or_else_full :
    (o : Option String) (other : String)
    → str_eq other "" ≡ false
    → str_eq (or_else o other) "" ≡ false
or_else_full none other full = full
or_else_full (some value) other full = ground arith

or_id_full : (id other : String) → str_eq id "" ≡ false → or_id id other ≡ id
or_id_full id other full = rw full refl

-- They are those that a Python service gives it.
pub context_ids-request_ids :
    (fresh fresh_chain : String) (headers : Headers)
    → str_eq fresh "" ≡ false
    → context_ids fresh fresh_chain headers ≡ request_ids fresh headers
unfolding request_ids
context_ids-request_ids fresh fresh_chain headers full =
    let r = scope_header "x-request-id" headers in
    let c = scope_header "x-correlation-id" headers in
    let same =
      ap (λ t. or_id t fresh) (get_header_lem "x-request-id" headers) ∙ or_id-or_else r fresh in
    let id_full = or_else_full r fresh full in
    let chained =
      ap (λ t. or_id t (or_else r fresh)) (get_header_lem "x-correlation-id" headers)
      ∙ or_id-or_else c (or_else r fresh) in
    let kept =
      or_id_full (or_else c (or_else r fresh)) fresh_chain
        (or_else_full c (or_else r fresh) id_full) in
    cc
