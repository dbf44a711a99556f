-- ===== src/Service/Lifespan.antt =====
-- The lifespan of an application, of `create_service_app` (shared/autosre_shared/app.py).
use auto_sre.Prelude.{ℕ, Bool, false, Option, none, some, if◌then◌else◌}

-- A hook, `on_startup(app)` or `on_shutdown(app)`, awaited where it is a coroutine: what it does to
-- the application, and whether an exception leaves it.
abbrev pub Hook : Type 0 → Type 0
Hook A = A → A × Bool

-- What the server has of a lifespan: it is not entered, it is up, it was left, or it broke off with
-- the exception of a hook.
pub data Phase : Type 0 where
  down : Phase
  up : Phase
  left : Phase
  broken : Phase

-- An application in its lifespan, and the gauge `service_up`.
pub record Running (A : Type 0) : Type 0 where
  pub phase : Phase
  pub service_up : ℕ
  pub app : A

module _ {A : Type 0} where
  unfoldable pub run_hook : Option (Hook A) → Hook A
  run_hook none app = (app, false)
  run_hook (some hook) app = hook app

  -- The part before the `yield`.
  unfoldable pub enter : Option (Hook A) → Running A → Running A
  enter on_startup r =
      let (app, failed) = run_hook on_startup r.app in
      record { phase = if failed then broken else up; service_up = 1; app = app }

  -- The part after it.
  unfoldable pub leave : Option (Hook A) → Running A → Running A
  leave on_shutdown r =
      let (app, failed) = run_hook on_shutdown r.app in
      record {
        phase = if failed then broken else left;
        service_up = if failed then r.service_up else 0;
        app = app;
      }

  -- A lifespan: what runs while the service is up is `serving`, which is skipped with the rest after
  -- a broken start.
  unfoldable pub lifespan : Option (Hook A) → Option (Hook A) → (A → A) → A → Running A
  lifespan on_startup on_shutdown serving app =
      let r = enter on_startup (record { phase = down; service_up = 0; app = app }) in
      elim r.phase [
        | up ↦ leave on_shutdown (record r { app = serving r.app })
        | down ↦ r
        | left ↦ r
        | broken ↦ r
      ]
