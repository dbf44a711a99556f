-- ===== src/Validate/Sound.antt =====
-- What the whole script promises.
use auto_sre.Prelude.{◌≡◌, ◌≢◌, refl, Bool, none, some, [], ◌∷◌, All, arith}
use auto_sre.Storage.Json.{Json}
use auto_sre.Validate.Values.{Check, fine}
use auto_sre.Validate.Laws.{also-fine}
use auto_sre.Validate.Rules.{required}
use auto_sre.Validate.Script.{Files, validation_ok, exit_of, check_all, script}
use auto_sre.Validate.SoundDashboards.{
  IsProvisioned, IsDashboard, check-IsProvisioned, check_dashboards-IsDashboard,
}
use auto_sre.Validate.Findings.{Some}
use auto_sre.Validate.SoundRule.{IsRuleFile, InDocument, Records}
use auto_sre.Validate.SoundRules.{check_rules-Recorded}

exit_ok : (c : Check) → exit_of c ≡ validation_ok → c ≡ fine
exit_ok none e = grind arith
exit_ok (some []) e = refl
exit_ok (some (p ∷ ps)) e = grind arith

-- When the script ends with "observability validation OK", the first datasource and the first
-- dashboard provider have the values that it wants; there are dashboards, and each of them is JSON
-- with a text for its uid, with panels of different ids, and, where a panel is neither a row nor a
-- text, with Prometheus for its datasource and an expression in every target; every alert rule has
-- the three annotations; and each required name is recorded by a rule of some group of some file.
pub script-Valid :
    (same : Json → Json → Bool) (files : Files)
    → script same files ≡ validation_ok
    → IsProvisioned files.datasources files.providers
      × ((files.dashboards ≢ []) × All (IsDashboard same) files.dashboards)
      × (All IsRuleFile files.rules
          × All (λ name. Some (InDocument (Records name)) files.rules) required)
unfolding script check_all
script-Valid same files e =
    let (ds, more) = also-fine _ _ (exit_ok _ e) in
    let (ps, rest) = also-fine _ _ more in
    let (boards, rules) = also-fine _ _ rest in
    let (datasource, provider) = check-IsProvisioned files.datasources files.providers ds ps in
    let (some_boards, all_boards) = check_dashboards-IsDashboard same files.dashboards boards in
    let (all_rules, recorded) = check_rules-Recorded files.rules rules in
    ((datasource, provider), (some_boards, all_boards), (all_rules, recorded))
