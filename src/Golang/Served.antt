-- ===== src/Golang/Served.antt =====
-- What a request to a Go service sees of the middlewares.
use auto_sre.Prelude.{
  ℕ, ◌≡◌, refl, ◌∙◌, ap, none, some, List, [], ◌∷◌, ◌++◌, Bool, false, arith, Bool-cases,
  Option-cases, inl, inr, if◌then◌else◌,
}
use auto_sre.Prelude.Text.{String, str_eq, eq_iff}
use auto_sre.Observability.Asgi.{Headers, Vars, scope_header, request_ids}
use auto_sre.Orders.Client.{set_header, merged, last_header, scope_header-merged}
use auto_sre.Golang.Middleware.{
  Writer, unwritten, set, first_status, status_or_ok, Ran, Handler, Middleware, request_id,
  correlation_id, logger, timeout, recover, wrap, backwards, chain, new,
}
use auto_sre.Golang.Context.{unset, context_ids-request_ids}

last_header-set_header :
    (name k v : String) (headers : Headers)
    → str_eq k name ≡ false
    → last_header name headers ≡ none
    → last_header name (set_header k v headers) ≡ none
unfolding set_header
last_header-set_header name k v [] other free = rw other refl
last_header-set_header name k v ((j, old) ∷ headers) other free =
    elim (Option-cases (last_header name headers)) [
      | inr (value, there) ↦ ground arith
      | inl none_left ↦
          let ih = last_header-set_header name k v headers other none_left in
          ground (arith, eq_iff j k, eq_iff j name, eq_iff k name)
    ]

merged_kept :
    (name : String) (first second : Headers)
    → last_header name second ≡ none
    → scope_header name (merged first second) ≡ scope_header name first
merged_kept name first second free = rw (scope_header-merged name second first, free) refl

abbrev stamped : Vars → Writer
stamped ids =
    set "x-correlation-id" ids.correlation_id (set "x-request-id" ids.request_id unwritten)

stamped_ids :
    (ids : Vars)
    → (scope_header "x-request-id" (stamped ids).headers ≡ some ids.request_id)
      × (scope_header "x-correlation-id" (stamped ids).headers ≡ some ids.correlation_id)
unfolding set_header scope_header
stamped_ids ids = (refl, refl)

module _ {W : Type 0} where
  wrap-append :
      (mws : List (Middleware W)) (mw : Middleware W) (h : Handler W)
      → wrap (mws ++ mw ∷ []) h ≡ mw (wrap mws h)
  unfolding wrap
  wrap-append [] mw h = refl
  wrap-append (m ∷ mws) mw h = wrap-append mws mw (m h)

  -- The first middleware that is listed runs outermost.
  chain-cons :
      (mw : Middleware W) (mws : List (Middleware W)) (h : Handler W)
      → chain h (mw ∷ mws) ≡ mw (chain h mws)
  unfolding chain backwards
  chain-cons mw mws h = wrap-append (backwards mws) mw h

  module _ (emit : ℕ → Vars → W → W) (expired : Bool) (mux : Handler W) where
    new_logged :
        (fresh fresh_chain : String) (headers : Headers) (s : W)
        → str_eq fresh "" ≡ false
        → let ids = request_ids fresh headers in
          new emit expired fresh fresh_chain mux headers unset unwritten s
          ≡ logger emit (timeout expired (recover mux)) headers ids (stamped ids) s
    unfolding new chain wrap backwards request_id correlation_id
    new_logged fresh fresh_chain headers s full =
        ap (λ ids. logger emit (timeout expired (recover mux)) headers ids (stamped ids) s)
          (context_ids-request_ids fresh fresh_chain headers full)

    -- The status of a response: 503 after the deadline, what a handler that panicked had written or
    -- 500, and else what the handler wrote or 200.
    abbrev pub final_status : Ran W → ℕ
    final_status inner =
        if expired
        then 503
        else if inner.panicked
        then status_or_ok (first_status 500 inner.writer.status)
        else status_or_ok inner.writer.status

    inner_served :
        (headers : Headers) (ids : Vars) (w : Writer) (s : W)
        → w.status ≡ none
        → let inner = mux headers ids unwritten s in
          let ran = logger emit (timeout expired (recover mux)) headers ids w s in
          (ran.panicked ≡ false)
          × (ran.writer.status ≡ some (final_status inner))
          × (ran.world ≡ emit (final_status inner) ids inner.world)
    unfolding logger timeout recover
    inner_served headers ids w s untouched =
        elim (Bool-cases (mux headers ids unwritten s).panicked) [
          | inl bad ↦ elim (Bool-cases expired) [
            | inl late ↦ rw (late, untouched, bad) (refl, refl, refl)
            | inr in_time ↦ rw (in_time, bad, untouched) (refl, refl, refl)
          ]
          | inr good ↦ elim (Bool-cases expired) [
            | inl late ↦ rw (late, untouched, good) (refl, refl, refl)
            | inr in_time ↦ rw (in_time, good, untouched) (refl, refl, refl)
          ]
        ]

    -- A header that the routes do not set is kept.
    inner_kept :
        (headers : Headers) (ids : Vars) (w : Writer) (s : W) (name : String)
        → str_eq "content-type" name ≡ false
        → last_header name (mux headers ids unwritten s).writer.headers ≡ none
        → let ran = logger emit (timeout expired (recover mux)) headers ids w s in
          scope_header name ran.writer.headers ≡ scope_header name w.headers
    unfolding logger timeout recover
    inner_kept headers ids w s name other free =
        let inner = mux headers ids unwritten s in
        let typed =
          last_header-set_header name "content-type" "application/json" inner.writer.headers other
            free in
        elim (Bool-cases inner.panicked) [
          | inl bad ↦ elim (Bool-cases expired) [
            | inl late ↦ rw late refl
            | inr in_time ↦ rw (in_time, bad) (merged_kept name w.headers _ typed)
          ]
          | inr good ↦ elim (Bool-cases expired) [
            | inl late ↦ rw late refl
            | inr in_time ↦ rw (in_time, good) (merged_kept name w.headers _ free)
          ]
        ]

    -- The middlewares of a Go service around its routes, which are given the ids that a Python service
    -- gives the same request. No panic leaves them; the response has the status 503 after the deadline,
    -- what a handler that panicked had written or 500, and else what the handler wrote or 200; the log
    -- has one line more, with that status and the ids; and the response carries both ids, unless the
    -- routes set these headers themselves. A generated id is not empty.
    pub new_serves :
        (fresh fresh_chain : String) (headers : Headers) (s : W)
        → str_eq fresh "" ≡ false
        → last_header "x-request-id"
            (mux headers (request_ids fresh headers) unwritten s).writer.headers
          ≡ none
        → last_header "x-correlation-id"
            (mux headers (request_ids fresh headers) unwritten s).writer.headers
          ≡ none
        → let ids = request_ids fresh headers in
          let inner = mux headers ids unwritten s in
          let ran = new emit expired fresh fresh_chain mux headers unset unwritten s in
          (ran.panicked ≡ false)
          × (ran.writer.status ≡ some (final_status inner))
          × (ran.world ≡ emit (final_status inner) ids inner.world)
          × (scope_header "x-request-id" ran.writer.headers ≡ some ids.request_id)
          × (scope_header "x-correlation-id" ran.writer.headers ≡ some ids.correlation_id)
    new_serves fresh fresh_chain headers s full free free' =
        let ids = request_ids fresh headers in
        let (calm, status, world) = inner_served headers ids (stamped ids) s refl in
        let (first, second) = stamped_ids ids in
        rw (new_logged fresh fresh_chain headers s full) (
          calm,
          status,
          world,
          inner_kept headers ids (stamped ids) s "x-request-id" refl free ∙ first,
          inner_kept headers ids (stamped ids) s "x-correlation-id" refl free' ∙ second,
        )
