-- ===== src/Breaker/Refinement.antt =====
-- A store that keeps what it is given to save serves as the object in memory does that the methods
-- change in place.
use auto_sre.Prelude.{◌≡◌, refl, ◌∙◌, ap, List, [], ◌∷◌, arith}
use auto_sre.Prelude.Int.{ℤ}
use auto_sre.Breaker.Defs.{BreakerStore, Config, World}
use auto_sre.Breaker.Methods.{allow, reject, record_success, record_failure}
use auto_sre.Breaker.Invariant.{Op, allow_at, rejected, succeeded, failed_at, apply, run}
use auto_sre.Breaker.InPlace.{Memory}
use auto_sre.Breaker.InPlace as InPlace

module _ {S : Type 0} (st : BreakerStore S) where
  -- The breaker as it would stand in memory.
  abbrev pub view : World S → Memory
  view w = record {
    stored = st.load w.stored;
    gauge = w.gauge;
    open_total = w.open_total;
    rejections_total = w.rejections_total;
    events = w.events;
  }

  module _ (cfg : Config) where
    view-apply : (op : Op) (w : World S) → view (apply st cfg op w) ≡ InPlace.apply cfg op (view w)
    unfolding apply allow reject record_success record_failure InPlace.apply InPlace.allow
        InPlace.reject InPlace.record_success InPlace.record_failure
    view-apply (allow_at now) w = grind (arith, st.load-save)
    view-apply rejected w = grind (arith, st.load-save)
    view-apply succeeded w = grind (arith, st.load-save)
    view-apply (failed_at now) w = grind (arith, st.load-save)

    allow-view :
        (now : ℤ) (w : World S) → (allow st cfg now w).1 ≡ (InPlace.allow cfg now (view w)).1
    unfolding allow InPlace.allow
    allow-view now w = grind (arith, st.load-save)

    view-run :
        (ops : List Op) (w : World S) → view (run st cfg ops w) ≡ InPlace.run cfg ops (view w)
    unfolding run InPlace.run
    view-run [] w = refl
    view-run (op ∷ ops) w =
        view-run ops (apply st cfg op w) ∙ ap (InPlace.run cfg ops) (view-apply op w)

    -- Through any sequence of method calls a breaker over any store whose `load` gives a copy of what
    -- was saved last agrees with the breaker whose record is changed in place and saved by doing so,
    -- as in the in-memory store: in the record, the three metrics, the reported events, and the answer
    -- of every later `allow`. So no method relies on a change that it does not save.
    pub any_store_agrees :
        (ops : List Op) (now : ℤ) (w : World S)
        → (view (run st cfg ops w) ≡ InPlace.run cfg ops (view w))
          × ((allow st cfg now (run st cfg ops w)).1
              ≡ (InPlace.allow cfg now (InPlace.run cfg ops (view w))).1)
    any_store_agrees ops now w = (
      view-run ops w,
      allow-view now (run st cfg ops w)
          ∙ ap (λ (v : Memory). (InPlace.allow cfg now v).1) (view-run ops w),
    )
