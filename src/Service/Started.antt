-- ===== src/Service/Started.antt =====
-- How the start of a service ends, where `validate_env` (shared/autosre_shared/envcheck.py) finds
-- nothing.
use auto_sre.Prelude.{
  ◌≡◌, refl, ◌∙◌, ap, Bool, true, false, not, ◌||◌, Option, none, some, List, [], ◌∷◌, All,
  if◌then◌else◌, Option-cases, Bool-cases, inl, inr,
}
use auto_sre.Prelude.Text.{String, str_eq, eq_iff}
use auto_sre.Service.Env.{Caster, int, float, validate_env, validate_env-accepts, WellFormed}
use auto_sre.Service.Startup.{
  Program, api, auth, worker, settings, default_port, Start, bad_setting, bad_port, running,
  setting_of, import_settings, after_import, start, limiter_texts,
}

-- A variable that is set to the empty text.
abbrev emptied : Option String → Bool
emptied none = false
emptied (some raw) = str_eq raw ""

module _ (getenv : String → Option String) (casts : Caster → String → Bool) where
  -- What a start comes to when the environment check has nothing to say: only an empty text can stop
  -- it, since the check takes that for a variable that is not set.
  abbrev first_emptied : List (String × String) → Option String
  first_emptied [] = none
  first_emptied ((name, default) ∷ rest) =
      let later = first_emptied rest in if emptied (getenv name) then some name else later

  abbrev checked : Program → Start
  checked program = elim (first_emptied (settings program)) [
    | some name ↦ bad_setting name
    | none ↦ if emptied (getenv "PORT") then bad_port else running
  ]

  -- The defaults are numbers, and the empty text is none.
  abbrev Casting : Type 0
  Casting =
      (casts float "0.08" ≡ true)
      × (casts float "5" ≡ true)
      × (casts float "0.2" ≡ true)
      × (casts float "10" ≡ true)
      × (casts float "20" ≡ true)
      × (casts int "8000" ≡ true)
      × (casts int "8001" ≡ true)
      × (casts int "8002" ≡ true)
      × (casts float "" ≡ false)
      × (casts int "" ≡ false)

  casts_setting :
      (caster : Caster) (name default : String)
      → casts caster default ≡ true
      → casts caster "" ≡ false
      → WellFormed getenv casts (name, caster)
      → casts caster (setting_of getenv casts name default) ≡ not (emptied (getenv name))
  casts_setting caster name default d e ok = elim (Option-cases (getenv name)) [
    | inl unset ↦ rw (unset, d) refl
    | inr (raw, set) ↦ elim (Bool-cases (str_eq raw "")) [
      | inl empty ↦
          let blank : casts caster raw ≡ false = ap (casts caster) ((eq_iff raw "").0 empty) ∙ e in
          rw (set, empty, blank) refl
      | inr full ↦ rw (set, full, ok raw (set, full)) refl
    ]
  ]

  flipped_port :
      (b : Bool) → (if not b then running else bad_port) ≡ (if b then bad_port else running)
  flipped_port true = refl
  flipped_port false = refl

  flipped_pair :
      (a b : Bool) (x : String × String)
      → (if not a then if not b then some x else none else none) ≡ (if a || b then none else some x)
  flipped_pair true b x = refl
  flipped_pair false true x = refl
  flipped_pair false false x = refl

  -- The end of a start whose settings are all read.
  port_checked :
      (port : String)
      → casts int port ≡ true
      → casts int "" ≡ false
      → WellFormed getenv casts ("PORT", int)
      → after_import getenv casts port [] ≡ (if emptied (getenv "PORT") then bad_port else running)
  unfolding after_import
  port_checked port d e ok =
      rw (casts_setting int "PORT" port d e ok) (flipped_port (emptied (getenv "PORT")))

  texts_checked :
      Casting
      → validate_env getenv casts [] ≡ []
      → limiter_texts getenv casts ≡ (
          if emptied (getenv "RATE_LIMIT_RPS") || emptied (getenv "RATE_LIMIT_BURST")
          then none
          else some (
            setting_of getenv casts "RATE_LIMIT_RPS" "10",
            setting_of getenv casts "RATE_LIMIT_BURST" "20",
          ))
  unfolding limiter_texts
  texts_checked (f08, f5, f02, f10, f20, p0, p1, p2, nf, ni) ok =
      let (required, (p, (r, (b, (i, (j, (l, _))))))) =
        (validate_env-accepts getenv casts []).0 ok in
      rw
        (
          casts_setting float "RATE_LIMIT_RPS" "10" f10 nf r,
          casts_setting float "RATE_LIMIT_BURST" "20" f20 nf b,
        )
        (flipped_pair (emptied (getenv "RATE_LIMIT_RPS")) (emptied (getenv "RATE_LIMIT_BURST")) _)

  -- `float` takes what a variable is set to, or its default, unless that is the empty text.
  abbrev Read : String × String → Type 0
  Read (name, default) =
      casts float (setting_of getenv casts name default) ≡ not (emptied (getenv name))

  import_checked :
      (vars : List (String × String))
      → All Read vars
      → import_settings getenv casts vars ≡ first_emptied vars
  unfolding import_settings
  import_checked [] read = refl
  import_checked ((name, default) ∷ vars) (read, rest) =
      flipped (emptied (getenv name)) _ read (import_checked vars rest)
    where
      flipped :
          {later later' : Option String} (b c : Bool)
          → c ≡ not b
          → later ≡ later'
          → (if c then later else some name) ≡ (if b then some name else later')
      flipped true c e same = rw e refl
      flipped false c e same = rw e same

  settings-Read :
      (program : Program)
      → Casting
      → validate_env getenv casts [] ≡ []
      → All Read (settings program)
  unfolding settings
  settings-Read api casting ok = tt
  settings-Read auth (f08, f5, f02, f10, f20, p0, p1, p2, nf, ni) ok =
      let (required, (p, (r, (b, (i, (j, (l, _))))))) =
        (validate_env-accepts getenv casts []).0 ok in
      (casts_setting float "AUTH_DEP_LATENCY" "0.08" f08 nf l, tt)
  settings-Read worker (f08, f5, f02, f10, f20, p0, p1, p2, nf, ni) ok =
      let (required, (p, (r, (b, (i, (j, (l, _))))))) =
        (validate_env-accepts getenv casts []).0 ok in
      (
        casts_setting float "WORKER_INTERVAL" "5" f5 nf i,
        (casts_setting float "WORKER_JOB_SECONDS" "0.2" f02 nf j, tt),
      )

  default_port_casts : (program : Program) → Casting → casts int (default_port program) ≡ true
  unfolding default_port
  default_port_casts api (f08, f5, f02, f10, f20, p0, p1, p2, nf, ni) = p0
  default_port_casts auth (f08, f5, f02, f10, f20, p0, p1, p2, nf, ni) = p1
  default_port_casts worker (f08, f5, f02, f10, f20, p0, p1, p2, nf, ni) = p2

  settled :
      (program : Program)
      → Casting
      → validate_env getenv casts [] ≡ []
      → start getenv casts program ≡ checked program
  unfolding start
  settled program casting ok =
      let (f08, f5, f02, f10, f20, p0, p1, p2, nf, ni) = casting in
      let (required, (p, more)) = (validate_env-accepts getenv casts []).0 ok in
      let port = port_checked (default_port program) (default_port_casts program casting) ni p in
      let read = import_checked (settings program) (settings-Read program casting ok) in
      elim (Option-cases (first_emptied (settings program))) [
        | inl full ↦ rw (start, checked, read, full, ok) port
        | inr (name, empty) ↦ rw (start, checked, read, empty) refl
      ]

  -- If the environment check finds nothing, a service starts, and its limiter can be made, unless a
  -- variable is set to the empty text: a start ends at the first such variable among those that its
  -- main.py reads, or at an empty PORT, and the limiter fails on an empty rate or an empty burst.
  -- The defaults are texts that `float` and `int` take, and the empty text is not.
  pub start-checked :
      (program : Program)
      → Casting
      → validate_env getenv casts [] ≡ []
      → (start getenv casts program ≡ checked program)
        × (limiter_texts getenv casts ≡ (
            if emptied (getenv "RATE_LIMIT_RPS") || emptied (getenv "RATE_LIMIT_BURST")
            then none
            else some (
              setting_of getenv casts "RATE_LIMIT_RPS" "10",
              setting_of getenv casts "RATE_LIMIT_BURST" "20",
            )))
  start-checked program casting ok = (settled program casting ok, texts_checked casting ok)
