-- ===== src/Validate/SoundRules.antt =====
-- What rule files are like in which the script finds nothing.
use auto_sre.Prelude.{◌≡◌, true, List, [], ◌∷◌, All, arith}
use mathlib.Core.List.{append-eq-nil_iff}
use mathlib.Core.Option.{some-injective}
use auto_sre.Prelude.Text.{String}
use auto_sre.Storage.Json.{Json}
use auto_sre.Validate.Values.{fine, listed}
use auto_sre.Validate.Laws.{bind-some, All-map}
use auto_sre.Validate.Rules.{
  find_all, check_rule, rules_of, check_group, check_document, required, is_recorded, missing,
  check_rules,
}
use auto_sre.Validate.Findings.{Some, Some-map, Quiet, Adds, find_all-Quiet, find_all-Adds}
use auto_sre.Validate.SoundRule.{
  IsGroup, IsRuleFile, InGroup, InDocument, Records, check_rule-IsRule, check_rule-Records,
}

check_group-IsGroup : (group : Json) → Quiet check_group group → IsGroup group
unfolding check_group
check_group-IsGroup group (f, e, silent) =
    let (rules, there, e') = bind-some (rules_of group) _ f e in
    (rules, there, All-map check_rule-IsRule rules (find_all-Quiet check_rule rules f e' silent))

check_group-Records :
    (name : String) (group : Json) → Adds check_group name group → InGroup (Records name) group
unfolding check_group
check_group-Records name group (f, e, added) =
    let (rules, there, e') = bind-some (rules_of group) _ f e in
    let found = find_all-Adds check_rule name rules f e' added in
    (rules, there, Some-map (check_rule-Records name) rules found)

check_document-IsRuleFile : (doc : Json) → Quiet check_document doc → IsRuleFile doc
unfolding check_document
check_document-IsRuleFile doc (f, e, silent) =
    let (groups, there, e') = bind-some (listed "groups" doc) _ f e in
    let quiet = find_all-Quiet check_group groups f e' silent in
    (groups, there, All-map check_group-IsGroup groups quiet)

check_document-Records :
    (name : String) (doc : Json) → Adds check_document name doc → InDocument (Records name) doc
unfolding check_document
check_document-Records name doc (f, e, added) =
    let (groups, there, e') = bind-some (listed "groups" doc) _ f e in
    let found = find_all-Adds check_group name groups f e' added in
    (groups, there, Some-map (check_group-Records name) groups found)

missing-nil :
    (names : List String) (recorded : List Json)
    → missing names recorded ≡ []
    → All (λ name. is_recorded name recorded ≡ true) names
unfolding missing
missing-nil [] recorded e = tt
missing-nil (name ∷ names) recorded e = (ground arith, missing-nil names recorded (ground arith))

-- Every rule file is in order, and every required name is recorded by a rule of one of them.
pub check_rules-Recorded :
    (docs : List Json)
    → check_rules docs ≡ fine
    → All IsRuleFile docs × All (λ name. Some (InDocument (Records name)) docs) required
unfolding check_rules
check_rules-Recorded docs e =
    let (found, there, e') = bind-some (find_all check_document docs) _ [] e in
    let (split, join) =
      append-eq-nil_iff {p = found.problems} {q = missing required found.recorded} in
    let (silent, complete) = split (some-injective _ _ e') in
    (
      All-map check_document-IsRuleFile docs
          (find_all-Quiet check_document docs found there silent),
      All-map
          (λ name recorded.
            Some-map (check_document-Records name) docs
              (find_all-Adds check_document name docs found there recorded))
          required (missing-nil required found.recorded complete),
    )
