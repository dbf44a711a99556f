-- ===== src/Validate/Dashboards.antt =====
-- The checks of the Grafana provisioning and of the dashboards.
use auto_sre.Prelude.{
  Bool, true, false, ◌||◌, Option, none, some, List, [], ◌∷◌, if◌then◌else◌, length, ◌==◌,
}
use auto_sre.Prelude.Text.{String}
use auto_sre.Storage.Json.{Json, null, bool, num, str, arr, obj, end, is_str}
use auto_sre.Service.Endpoints.{truthy}
use auto_sre.Validate.Values.{
  datasource_uid, provider_path, no_dashboards, invalid_json, missing_uid, duplicate_ids,
  panel_datasource, target_expr, Check, fine, report, also, each, item, first, get_of, listed,
  hashable, ◌>>=◌,
}

unfoldable pub check_datasource : Json → Check
check_datasource ds = do
  sources ← item "datasources" ds
  source ← first sources
  uid ← item "uid" source
  if is_str uid "prometheus" then fine else report datasource_uid

unfoldable pub check_provider : Json → Check
check_provider prov = do
  providers ← item "providers" prov
  provider ← first providers
  options ← item "options" provider
  path ← item "path" options
  if is_str path "/etc/grafana/dashboards" then fine else report provider_path

unfoldable pub check_target : String → Json → Check
check_target name target = do
  expr ← get_of "expr" target
  if truthy expr then fine else report (target_expr name)

-- `p.get("datasource") or {}`
abbrev pub or_empty : Json → Json
or_empty v = if truthy v then v else obj end

-- A panel that is neither a row nor a text. A message names the dashboard.
unfoldable pub check_drawn : String → Json → Check
check_drawn name panel = do
  datasource ← get_of "datasource" panel
  uid ← get_of "uid" (or_empty datasource)
  targets ← listed "targets" panel
  also (if is_str uid "prometheus" then fine else report (panel_datasource name))
      (each (check_target name) targets)

-- The loop over the panels, on one of them.
unfoldable pub check_panel : String → Json → Check
check_panel name panel = do
  type ← get_of "type" panel
  if is_str type "row" || is_str type "text" then fine else check_drawn name panel

abbrev pub is_text : Json → Bool
is_text (str s) = true
is_text null = false
is_text (bool b) = false
is_text (num n) = false
is_text (arr xs) = false
is_text (obj d) = false

-- `[p.get("id") for p in panels]`, as elements of a set.
unfoldable pub ids_of : List Json → Option (List Json)
ids_of [] = some []
ids_of (panel ∷ panels) = do
  id ← get_of "id" panel
  ids ← ids_of panels
  if hashable id then some (id ∷ ids) else none

-- `same` is `==` on values that have a hash.
module _ (same : Json → Json → Bool) where
  unfoldable pub member : Json → List Json → Bool
  member x [] = false
  member x (y ∷ ys) = same x y || member x ys

  -- `set(ids)`, with the elements so far.
  unfoldable pub collect : List Json → List Json → List Json
  collect seen [] = seen
  collect seen (x ∷ xs) = collect (if member x seen then seen else x ∷ seen) xs

  -- The loop over the files, on one of them; `none` stands for a file that is no JSON.
  unfoldable pub check_dashboard : String × Option Json → Check
  check_dashboard (name, none) = report (invalid_json name)
  check_dashboard (name, some d) = do
    uid ← get_of "uid" d
    panels ← listed "panels" d
    ids ← ids_of panels
    also (if is_text uid then fine else report (missing_uid name)) (
        also (if length ids == length (collect [] ids) then fine else report (duplicate_ids name))
          (each (check_panel name) panels))

  unfoldable pub check_dashboards : List (String × Option Json) → Check
  check_dashboards [] = report no_dashboards
  check_dashboards (d ∷ ds) = each check_dashboard (d ∷ ds)
