-- ===== src/Breaker/Registry.antt =====
-- The registry of breakers by name: `_registry`, `get_or_create`, `all_breakers`, `reset_registry`
-- and `breaker_dependency`. A breaker is an element of any type; the keyword arguments of
-- `CircuitBreaker` are those of the function that builds it.
use auto_sre.Prelude.{◌≡◌, refl, Option, none, some, List, [], ◌∷◌, ◌++◌, arith, if◌then◌else◌}
use auto_sre.Prelude.Text.{String, str_eq, eq_iff}

module _ {B : Type 0} where
  abbrev pub find : String → List (String × B) → Option B
  find name [] = none
  find name ((k, b) ∷ registry) = if str_eq k name then some b else find name registry

  -- The new registry and the breaker; `build` is `CircuitBreaker(name, **kwargs)`.
  unfoldable pub get_or_create : String → B → List (String × B) → List (String × B) × B
  get_or_create name build registry = elim (find name registry) [
    | some breaker ↦ (registry, breaker)
    | none ↦ (registry ++ (name, build) ∷ [], build)
  ]

  unfoldable pub all_breakers : List (String × B) → List B
  all_breakers [] = []
  all_breakers ((_, b) ∷ registry) = b ∷ all_breakers registry

  unfoldable reset_registry : List (String × B) → List (String × B)
  reset_registry registry = []

  -- `breaker_dependency(name, **kwargs)`: the callable that FastAPI runs for each request.
  unfoldable breaker_dependency : String → B → List (String × B) → List (String × B) × B
  breaker_dependency name build = get_or_create name build

  -- The calls of `get_or_create` by a part of the program, in order.
  create_all : List (String × B) → List (String × B) → List (String × B)
  create_all [] registry = registry
  create_all ((name, build) ∷ calls) registry =
      create_all calls (get_or_create name build registry).0

  find-append :
      (name k : String) (b : B) (registry : List (String × B))
      → find name (registry ++ (k, b) ∷ []) ≡ elim (find name registry) [
        | some old ↦ some old
        | none ↦ if str_eq k name then some b else none
      ]
  find-append name k b [] = refl
  find-append name k b ((j, x) ∷ registry) = ground (arith, find-append name k b registry)

  pub find-get_or_create_self :
      (name : String) (build : B) (registry : List (String × B))
      → let (registry', b) = get_or_create name build registry in find name registry' ≡ some b
  unfolding get_or_create
  find-get_or_create_self name build registry =
      ground (arith, find-append name name build registry, eq_iff name name)

  find-get_or_create_old :
      (name k : String) (build b : B) (registry : List (String × B))
      → find name registry ≡ some b
      → find name (get_or_create k build registry).0 ≡ some b
  unfolding get_or_create
  find-get_or_create_old name k build b registry e =
      ground (arith, find-append name k build registry)

  find-create_all :
      (name : String) (b : B) (calls registry : List (String × B))
      → find name registry ≡ some b
      → find name (create_all calls registry) ≡ some b
  unfolding create_all
  find-create_all name b [] registry e = e
  find-create_all name b ((k, build) ∷ calls) registry e =
      find-create_all name b calls (get_or_create k build registry).0
        (find-get_or_create_old name k build b registry e)

  pub get_or_create_found :
      (name : String) (build b : B) (registry : List (String × B))
      → find name registry ≡ some b
      → get_or_create name build registry ≡ (registry, b)
  unfolding get_or_create
  get_or_create_found name build b registry e = rw (e, get_or_create)

  -- The breaker that `get_or_create` returns for a name is the one that every later call for that
  -- name returns, whatever other calls come in between and whatever arguments they pass: the later
  -- call adds nothing to the registry and its own arguments have no effect.
  get_or_create_stable :
      (name : String) (build other : B) (calls registry : List (String × B))
      → let (registry', b) = get_or_create name build registry in
        let later = create_all calls registry' in get_or_create name other later ≡ (later, b)
  get_or_create_stable name build other calls registry =
      let (registry', b) = get_or_create name build registry in
      get_or_create_found name other b (create_all calls registry')
        (find-create_all name b calls registry' (find-get_or_create_self name build registry))
