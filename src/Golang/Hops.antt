-- ===== src/Golang/Hops.antt =====
-- Chains of calls through services of both languages.
use auto_sre.Prelude.{◌≡◌, refl, false, List, [], ◌∷◌, map}
use auto_sre.Prelude.Text.{String, str_eq}
use auto_sre.Observability.Asgi.{Headers, Vars, scope_header, request_ids, propagation_headers}
use auto_sre.Golang.Client.{call_headers}
use auto_sre.Golang.Context.{context_ids}

pub data Language : Type 0 where
  python : Language
  golang : Language

-- The ids that a service gives a request, and the headers that its calls carry.
abbrev ids_in : Language → String → String → Headers → Vars
ids_in python fresh fresh_chain headers = request_ids fresh headers
ids_in golang fresh fresh_chain headers = context_ids fresh fresh_chain headers

abbrev headers_of : Language → Vars → Headers
headers_of python context = propagation_headers context
headers_of golang context = call_headers context

-- A service of a chain, with the ids that it makes.
pub record Hop : Type 0 where
  pub language : Language
  pub fresh : String
  pub fresh_chain : String

-- An HTTP server reads the names of headers through `lower`.
abbrev read_by : (String → String) → Headers → Headers
read_by lower headers = map (λ h. (lower h.0, h.1)) headers

-- The ids at each service of a chain of calls, `caller` being the language of the first.
pub chain_ids : (String → String) → Language → List Hop → Vars → List Vars
chain_ids lower caller [] vars = []
chain_ids lower caller (hop ∷ hops) vars =
    let ids =
      ids_in hop.language hop.fresh hop.fresh_chain (read_by lower (headers_of caller vars)) in
    ids ∷ chain_ids lower hop.language hops ids

hop-ids :
    (lower : String → String) (caller callee : Language) (fresh fresh_chain rid cid : String)
    → lower "X-Correlation-ID" ≡ "x-correlation-id"
    → lower "Content-Type" ≡ "content-type"
    → str_eq cid "" ≡ false
    → str_eq cid "-" ≡ false
    → ids_in callee fresh fresh_chain
        (read_by lower (headers_of caller (record { request_id = rid; correlation_id = cid })))
      ≡ record { request_id = fresh; correlation_id = cid }
unfolding request_ids propagation_headers scope_header call_headers
hop-ids lower python python fresh fresh_chain rid cid l t full known =
    rw (full, known, l, full) refl
hop-ids lower python golang fresh fresh_chain rid cid l t full known =
    rw (full, known, l, full, full) refl
hop-ids lower golang python fresh fresh_chain rid cid l t full known = rw (full, l, t, full) refl
hop-ids lower golang golang fresh fresh_chain rid cid l t full known =
    rw (full, l, t, full, full) refl

-- The services of a chain of calls, each written in Python or in Go and called from within the
-- request of the one before it, all work under the first one's correlation id, unless that is empty
-- or "-", and each under a request id that it made itself.
pub chain_shares_correlation :
    (lower : String → String) (caller : Language) (hops : List Hop) (rid cid : String)
    → lower "X-Correlation-ID" ≡ "x-correlation-id"
    → lower "Content-Type" ≡ "content-type"
    → str_eq cid "" ≡ false
    → str_eq cid "-" ≡ false
    → chain_ids lower caller hops (record { request_id = rid; correlation_id = cid })
      ≡ map (λ hop. record { request_id = hop.fresh; correlation_id = cid }) hops
unfolding chain_ids
chain_shares_correlation lower caller [] rid cid l t full known = refl
chain_shares_correlation lower caller (hop ∷ hops) rid cid l t full known = rw (
  hop-ids lower caller hop.language hop.fresh hop.fresh_chain rid cid l t full known,
  chain_shares_correlation lower hop.language hops hop.fresh cid l t full known,
)
