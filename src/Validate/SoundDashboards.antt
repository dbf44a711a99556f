-- ===== src/Validate/SoundDashboards.antt =====
-- What dashboards are like in which the script finds nothing.
use auto_sre.Prelude.{
  ◌+◌, ◌≤◌, ◌≡◌, ◌≢◌, refl, sym, ◌∙◌, ap, Bool, true, false, ◌||◌, Option, none, some, List, [],
  ◌∷◌, All, ◌⊎◌, inl, inr, Bool-cases, arith, length, ◌==◌, if◌then◌else◌,
}
use auto_sre.Prelude.Text.{String, eq_iff}
use auto_sre.Storage.Json.{Json, null, bool, num, str, arr, obj, is_str}
use auto_sre.Service.Endpoints.{truthy}
use auto_sre.Validate.Values.{
  fine, item, first, get_of, listed, ◌>>=◌, target_expr, panel_datasource, missing_uid,
  duplicate_ids, datasource_uid, provider_path,
}
use auto_sre.Validate.Laws.{bind-some, also-fine, each-fine, if-fine, All-map}
use auto_sre.Validate.Dashboards.{
  check_datasource, check_provider, check_target, check_drawn, check_panel, or_empty, is_text,
  ids_of, member, collect, check_dashboard, check_dashboards,
}

-- A target has an expression.
abbrev HasExpr : Json → Type 0
HasExpr target = (expr : Json) × (get_of "expr" target ≡ some expr) × (truthy expr ≡ true)

-- A panel that draws data reads it from Prometheus, and all its targets have an expression.
abbrev IsDrawn : Json → Type 0
IsDrawn panel =
    ((source : Json) × (get_of "datasource" panel ≡ some source)
      × (get_of "uid" (or_empty source) ≡ some (str "prometheus")))
    × ((targets : List Json) × (listed "targets" panel ≡ some targets) × All HasExpr targets)

abbrev IsPanel : Json → Type 0
IsPanel panel =
    (type : Json) × (get_of "type" panel ≡ some type)
    × ((is_str type "row" || is_str type "text" ≡ true) ⊎ IsDrawn panel)

-- No element is the same as one before it or as one of `seen`.
abbrev AllNew : (Json → Json → Bool) → List Json → List Json → Type 0
AllNew same seen [] = Unit {0}
AllNew same seen (x ∷ xs) = (member same x seen ≡ false) × AllNew same (x ∷ seen) xs

abbrev pub IsDashboard : (Json → Json → Bool) → String × Option Json → Type 0
IsDashboard same (name, none) = ⊥
IsDashboard same (name, some d) =
    ((uid : String) × (get_of "uid" d ≡ some (str uid)))
    × ((panels : List Json) × (ids : List Json) × (listed "panels" d ≡ some panels)
        × (ids_of panels ≡ some ids)
        × AllNew same [] ids
        × All IsPanel panels)

pub is_str-eq : (v : Json) (text : String) → is_str v text ≡ true → v ≡ str text
is_str-eq (str s) text h = ap str ((eq_iff s text).0 h)
is_str-eq null text h = grind arith
is_str-eq (bool b) text h = grind arith
is_str-eq (num n) text h = grind arith
is_str-eq (arr xs) text h = grind arith
is_str-eq (obj d) text h = grind arith

check_target-HasExpr :
    (name : String) (target : Json) → check_target name target ≡ fine → HasExpr target
unfolding check_target
check_target-HasExpr name target e =
    let (expr, there, found) = bind-some (get_of "expr" target) _ [] e in
    (expr, there, if-fine (truthy expr) (target_expr name) found)

check_drawn-IsDrawn : (name : String) (panel : Json) → check_drawn name panel ≡ fine → IsDrawn panel
unfolding check_drawn
check_drawn-IsDrawn name panel e =
    let (source, there, e') = bind-some (get_of "datasource" panel) _ [] e in
    let (uid, named, e'') = bind-some (get_of "uid" (or_empty source)) _ [] e' in
    let (targets, has, e3) = bind-some (listed "targets" panel) _ [] e'' in
    let (right, all) = also-fine _ _ e3 in
    let prometheus =
      is_str-eq uid "prometheus"
        (if-fine (is_str uid "prometheus") (panel_datasource name) right) in
    (
      (source, there, named ∙ ap some prometheus),
      (
        targets,
        has,
        All-map (check_target-HasExpr name) targets (each-fine (check_target name) targets all),
      ),
    )

check_panel-IsPanel : (name : String) (panel : Json) → check_panel name panel ≡ fine → IsPanel panel
unfolding check_panel
check_panel-IsPanel name panel e =
    let (type, there, rest) = bind-some (get_of "type" panel) _ [] e in
    let plain = is_str type "row" || is_str type "text" in
    (
      type,
      there,
      elim (Bool-cases plain) [
        | inl is_plain ↦ inl is_plain
        | inr drawn ↦ inr (check_drawn-IsDrawn name panel (sym (if-false plain drawn) ∙ rest))
      ],
    )
  where
    if-false :
        (b : Bool)
        → b ≡ false
        → (if b then fine else check_drawn name panel) ≡ check_drawn name panel
    if-false b h = rw h refl

module _ (same : Json → Json → Bool) where
  length-collect : (seen xs : List Json) → length (collect same seen xs) ≤ length seen + length xs
  unfolding collect
  length-collect seen [] = omega arith
  length-collect seen (x ∷ xs) =
      ground (arith, length-collect seen xs, length-collect (x ∷ seen) xs)

  collect-AllNew :
      (seen xs : List Json)
      → length seen + length xs ≤ length (collect same seen xs)
      → AllNew same seen xs
  unfolding collect
  collect-AllNew seen [] h = tt
  collect-AllNew seen (x ∷ xs) h = elim (Bool-cases (member same x seen)) [
    | inl old ↦ absurd (repeated old)
    | inr new ↦ (new, collect-AllNew (x ∷ seen) xs (added new))
  ]
    where
      repeated : member same x seen ≡ true → ⊥
      repeated old = ground (arith, length-collect seen xs)

      added :
          member same x seen ≡ false
          → length (x ∷ seen) + length xs ≤ length (collect same (x ∷ seen) xs)
      added new = ground arith

  is_text-str : (v : Json) → is_text v ≡ true → (s : String) × (v ≡ str s)
  is_text-str (str s) h = (s, refl)
  is_text-str null h = grind arith
  is_text-str (bool b) h = grind arith
  is_text-str (num n) h = grind arith
  is_text-str (arr xs) h = grind arith
  is_text-str (obj d) h = grind arith

  check_dashboard-IsDashboard :
      (d : String × Option Json) → check_dashboard same d ≡ fine → IsDashboard same d
  unfolding check_dashboard
  check_dashboard-IsDashboard (name, none) e = grind arith
  check_dashboard-IsDashboard (name, some d) e =
      let (uid, there, e') = bind-some (get_of "uid" d) _ [] e in
      let (panels, listing, e'') = bind-some (listed "panels" d) _ [] e' in
      let (ids, listed_ids, e3) = bind-some (ids_of panels) _ [] e'' in
      let (text, e4) = also-fine _ _ e3 in
      let (unique, all) = also-fine _ _ e4 in
      let (s, is_s) = is_text-str uid (if-fine (is_text uid) (missing_uid name) text) in
      let sized =
        if-fine (length ids == length (collect same [] ids)) (duplicate_ids name) unique in
      (
        (s, there ∙ ap some is_s),
        (
          panels,
          ids,
          listing,
          listed_ids,
          collect-AllNew [] ids (ground arith),
          All-map (check_panel-IsPanel name) panels (each-fine (check_panel name) panels all),
        ),
      )

  pub check_dashboards-IsDashboard :
      (ds : List (String × Option Json))
      → check_dashboards same ds ≡ fine
      → (ds ≢ []) × All (IsDashboard same) ds
  unfolding check_dashboards
  check_dashboards-IsDashboard [] e = grind arith
  check_dashboards-IsDashboard (d ∷ ds) e = (
    λ empty. grind arith,
    All-map check_dashboard-IsDashboard (d ∷ ds) (each-fine (check_dashboard same) (d ∷ ds) e),
  )

-- The uid of the first datasource, and the path of the first dashboard provider.
abbrev pub IsProvisioned : Json → Json → Type 0
IsProvisioned datasources providers =
    ((item "datasources" datasources >>= first >>= item "uid") ≡ some (str "prometheus"))
    × ((item "providers" providers >>= first >>= item "options" >>= item "path")
        ≡ some (str "/etc/grafana/dashboards"))

pub check-IsProvisioned :
    (ds ps : Json) → check_datasource ds ≡ fine → check_provider ps ≡ fine → IsProvisioned ds ps
unfolding check_datasource check_provider
check-IsProvisioned ds ps e e' =
    let (sources, has, e2) = bind-some (item "datasources" ds) _ [] e in
    let (source, starts, e3) = bind-some (first sources) _ [] e2 in
    let (uid, named, e4) = bind-some (item "uid" source) _ [] e3 in
    let prometheus =
      is_str-eq uid "prometheus" (if-fine (is_str uid "prometheus") datasource_uid e4) in
    let (providers, has', d2) = bind-some (item "providers" ps) _ [] e' in
    let (provider, starts', d3) = bind-some (first providers) _ [] d2 in
    let (options, chosen, d4) = bind-some (item "options" provider) _ [] d3 in
    let (path, there, d5) = bind-some (item "path" options) _ [] d4 in
    let mounted =
      is_str-eq path "/etc/grafana/dashboards"
        (if-fine (is_str path "/etc/grafana/dashboards") provider_path d5) in
    (
      rw (has, starts, named) (ap some prometheus),
      rw (has', starts', chosen, there) (ap some mounted),
    )
