-- ===== src/Validate/Tests.antt =====
-- The script on small files that are in order, and on some that are not.
use auto_sre.Prelude.{◌≡◌, ◌≢◌, refl, Bool, false, none, some, List, [], ◌∷◌, All, ◌==◌}
use auto_sre.Prelude.Int.{pos, negsuc}
use auto_sre.Prelude.Text.{String}
use auto_sre.Storage.Json.{Json, null, num, str, arr, obj, Items, nil, cons, end, field, is_str}
use auto_sre.Service.Endpoints.{truthy}
use auto_sre.Validate.Values.{Problem, also, each, in_set, within, duplicate_ids, target_expr}
use auto_sre.Validate.Dashboards.{
  check_datasource, check_provider, check_target, check_drawn, check_panel, ids_of, member, collect,
  check_dashboard, check_dashboards,
}
use auto_sre.Validate.Rules.{
  find_all, annotated, check_alert, check_record, check_rule, check_group, check_document, required,
  is_recorded, missing, check_rules,
}
use auto_sre.Validate.Script.{Files, validation_ok, validation_failed, crashed, check_all, script}
use auto_sre.Validate.SoundDashboards.{IsProvisioned, IsDashboard}
use auto_sre.Validate.Findings.{Some}
use auto_sre.Validate.SoundRule.{IsRuleFile, InDocument, Records}
use auto_sre.Validate.Sound.{script-Valid}

-- Equality of ids that are numbers or texts.
abbrev same_id : Json → Json → Bool
same_id (num (pos m)) (num (pos n)) = m == n
same_id (num (negsuc m)) (num (negsuc n)) = m == n
same_id v (str s) = is_str v s
same_id v w = false

abbrev one : Json → Json
one v = arr (cons v nil)

abbrev datasources : Json
datasources = obj (field "datasources" (one (obj (field "uid" (str "prometheus") end))) end)

abbrev providers : Json
providers =
    let options = obj (field "path" (str "/etc/grafana/dashboards") end) in
    obj (field "providers" (one (obj (field "options" options end))) end)

-- A graph with one query, and a text.
abbrev graph : String → Json
graph query = obj (
    field "id" (num (pos 1)) (
      field "type" (str "timeseries") (
        field "datasource" (obj (field "uid" (str "prometheus") end))
          (field "targets" (one (obj (field "expr" (str query) end))) end))))

abbrev text_panel : Json
text_panel = obj (field "id" (num (pos 2)) (field "type" (str "text") end))

abbrev board : Json → Json → Json
board first second =
    obj (field "uid" (str "red") (field "panels" (arr (cons first (cons second nil))) end))

abbrev recording : String → Json
recording name = obj (field "record" (str name) (field "expr" (str "up") end))

abbrev texts : List String → Items
texts [] = nil
texts (name ∷ names) = cons (recording name) (texts names)

abbrev alert : Json
alert = obj (
    field "alert" (str "HighLatency") (
      field "annotations"
        (obj (
          field "summary" (str "slow")
            (field "description" (str "p95 is high") (field "runbook_url" (str "docs") end))))
        end))

abbrev rule_file : Items → Json
rule_file rules = obj (field "groups" (one (obj (field "rules" (arr rules) end))) end)

abbrev in_order : Files
in_order = record {
  datasources = datasources;
  providers = providers;
  dashboards = ("red.json", some (board (graph "up") text_panel)) ∷ [];
  rules = rule_file (texts required) ∷ rule_file (cons alert nil) ∷ [];
}

accepted : script same_id in_order ≡ validation_ok
unfolding script check_all also each check_datasource check_provider check_dashboards
    check_dashboard check_panel check_drawn check_target ids_of collect member check_rules find_all
    check_document check_group check_rule check_record check_alert annotated within in_set missing
    is_recorded truthy
accepted = refl

script-Valid_example :
    IsProvisioned datasources providers
    × ((in_order.dashboards ≢ []) × All (IsDashboard same_id) in_order.dashboards)
    × (All IsRuleFile in_order.rules
        × All (λ name. Some (InDocument (Records name)) in_order.rules) required)
script-Valid_example = script-Valid same_id in_order accepted

-- Two panels of one id, of which one has a query without text.
abbrev broken : Files
broken = record in_order {
  dashboards = ("red.json", some (board (graph "up") (graph ""))) ∷ ("b.json", none) ∷ [];
}

refused :
    script same_id broken
    ≡ validation_failed
        (duplicate_ids "red.json" ∷ target_expr "red.json" ∷ Problem.invalid_json "b.json" ∷ [])
unfolding script check_all also each check_datasource check_provider check_dashboards
    check_dashboard check_panel check_drawn check_target ids_of collect member check_rules find_all
    check_document check_group check_rule check_record check_alert annotated within in_set missing
    is_recorded truthy
refused = refl

no_datasource : script same_id (record in_order { datasources = null }) ≡ crashed
unfolding script check_all also check_datasource
no_datasource = refl
