-- ===== src/Validate/SoundRule.antt =====
-- Single rules in which the script finds nothing.
use auto_sre.Prelude.{
  ◌≡◌, refl, sym, ◌∙◌, ap, Bool, true, false, ◌&&◌, ◌||◌, none, some, List, [], ◌∷◌, All, ◌⊎◌, inl,
  inr, arith, if◌then◌else◌,
}
use mathlib.Core.Option.{some-injective}
use auto_sre.Prelude.Text.{String}
use auto_sre.Storage.Json.{Json, str, is_str}
use auto_sre.Validate.Values.{
  Problem, annotations, item, get_or_empty, listed, hashable, within, in_set, ◌>>=◌,
}
use auto_sre.Validate.Laws.{bind-some}
use auto_sre.Validate.Rules.{
  Found, annotated, check_alert, check_record, check_rule, rules_of, is_recorded, nothing_found,
}
use auto_sre.Validate.Findings.{Some, Quiet, Adds}
use auto_sre.Validate.SoundDashboards.{is_str-eq}

-- The annotations have the three names.
abbrev IsAnnotated : Json → Type 0
IsAnnotated rule =
    (ann : Json) × (get_or_empty "annotations" rule ≡ some ann)
    × (in_set "summary" ann ≡ some true)
    × (in_set "description" ann ≡ some true)
    × (in_set "runbook_url" ann ≡ some true)

-- A rule that records, an alert with its annotations, or neither.
abbrev IsRule : Json → Type 0
IsRule rule =
    (within "record" rule ≡ some true)
    ⊎ (within "record" rule ≡ some false)
      × ((within "alert" rule ≡ some false) ⊎ (within "alert" rule ≡ some true) × IsAnnotated rule)

abbrev pub InGroup : (Json → Type 0) → Json → Type 0
InGroup P group = (rules : List Json) × (rules_of group ≡ some rules) × Some P rules

abbrev pub InDocument : (Json → Type 0) → Json → Type 0
InDocument P doc =
    (groups : List Json) × (listed "groups" doc ≡ some groups) × Some (InGroup P) groups

abbrev pub Records : String → Json → Type 0
Records name rule = (within "record" rule ≡ some true) × (item "record" rule ≡ some (str name))

abbrev pub IsGroup : Json → Type 0
IsGroup group = (rules : List Json) × (rules_of group ≡ some rules) × All IsRule rules

abbrev pub IsRuleFile : Json → Type 0
IsRuleFile doc = (groups : List Json) × (listed "groups" doc ≡ some groups) × All IsGroup groups

and_all : (a b c : Bool) → a && b && c ≡ true → (a ≡ true) × (b ≡ true) × (c ≡ true)
and_all true b c h = ground arith
and_all false b c h = ground arith

annotated-true :
    (ann : Json)
    → annotated ann ≡ some true
    → (in_set "summary" ann ≡ some true)
      × (in_set "description" ann ≡ some true)
      × (in_set "runbook_url" ann ≡ some true)
unfolding annotated
annotated-true ann e =
    let (a, ea, e') = bind-some (in_set "summary" ann) _ true e in
    let (b, eb, e'') = bind-some (in_set "description" ann) _ true e' in
    let (c, ec, e3) = bind-some (in_set "runbook_url" ann) _ true e'' in
    let (ta, tb, tc) = and_all a b c (some-injective _ _ e3) in
    (ea ∙ ap some ta, eb ∙ ap some tb, ec ∙ ap some tc)

silent_alert :
    (named complete : Bool) (p : Problem) (f : Found)
    → (if named
        then some (record { recorded = []; problems = if complete then [] else p ∷ [] })
        else none)
      ≡ some f
    → f.problems ≡ []
    → complete ≡ true
silent_alert named true p f e silent = refl
silent_alert true false p f e silent =
    let same : p ∷ [] ≡ f.problems = ap (λ (k : Found). k.problems) (some-injective _ _ e) in
    grind arith
silent_alert false false p f e silent = grind arith

check_alert-IsAnnotated : (rule : Json) → Quiet check_alert rule → IsAnnotated rule
unfolding check_alert
check_alert-IsAnnotated rule (f, e, silent) =
    let (alert, named, e') = bind-some (item "alert" rule) _ f e in
    let (ann, there, e'') = bind-some (get_or_empty "annotations" rule) _ f e' in
    let (complete, judged, e3) = bind-some (annotated ann) _ f e'' in
    let done = silent_alert (hashable alert) complete (annotations alert) f e3 silent in
    let (s, d, r) = annotated-true ann (judged ∙ ap some done) in (ann, there, s, d, r)

pub check_rule-IsRule : (rule : Json) → Quiet check_rule rule → IsRule rule
unfolding check_rule
check_rule-IsRule rule (f, e, silent) =
    let (records, is_record, e') = bind-some (within "record" rule) _ f e in
    after records is_record e'
  where
    is_alert :
        (alerts : Bool)
        → within "alert" rule ≡ some alerts
        → (if alerts then check_alert rule else some nothing_found) ≡ some f
        → (within "alert" rule ≡ some false)
          ⊎ ((within "alert" rule ≡ some true) × IsAnnotated rule)
    is_alert true h k = inr (h, check_alert-IsAnnotated rule (f, k, silent))
    is_alert false h k = inl h

    after :
        (records : Bool)
        → within "record" rule ≡ some records
        → (if records
            then check_record rule
            else (within "alert" rule
                >>= (λ alerts. if alerts then check_alert rule else some nothing_found)))
          ≡ some f
        → IsRule rule
    after true h k = inl h
    after false h k =
        let (alerts, is, k') = bind-some (within "alert" rule) _ f k in
        inr (h, is_alert alerts is k')

or_left : (b : Bool) → b || false ≡ true → b ≡ true
or_left true h = refl
or_left false h = h

records_name :
    (name : String) (hashes : Bool) (v : Json) (f : Found)
    → (if hashes then some (record { recorded = v ∷ []; problems = [] }) else none) ≡ some f
    → is_recorded name f.recorded ≡ true
    → v ≡ str name
unfolding is_recorded
records_name name true v f e added =
    let same = ap (λ (k : Found). is_recorded name k.recorded) (some-injective _ _ e) ∙ added in
    is_str-eq v name (or_left (is_str v name) same)
records_name name false v f e added = grind arith

adds_nothing :
    (name : String) (f : Found) → some nothing_found ≡ some f → is_recorded name f.recorded ≡ false
unfolding is_recorded
adds_nothing name f e = sym (ap (λ (k : Found). is_recorded name k.recorded) (some-injective _ _ e))

alert_adds_nothing :
    (name : String) (rule : Json) (f : Found)
    → check_alert rule ≡ some f
    → is_recorded name f.recorded ≡ false
unfolding check_alert is_recorded
alert_adds_nothing name rule f e =
    let (alert, named, e') = bind-some (item "alert" rule) _ f e in
    let (ann, there, e'') = bind-some (get_or_empty "annotations" rule) _ f e' in
    let (complete, judged, e3) = bind-some (annotated ann) _ f e'' in
    empty (hashable alert) (if complete then [] else annotations alert ∷ []) e3
  where
    empty :
        (h : Bool) (ps : List Problem)
        → (if h then some (record { recorded = []; problems = ps }) else none) ≡ some f
        → is_recorded name f.recorded ≡ false
    empty true ps k = sym (ap (λ (g : Found). is_recorded name g.recorded) (some-injective _ _ k))
    empty false ps k = grind arith

pub check_rule-Records :
    (name : String) (rule : Json) → Adds check_rule name rule → Records name rule
unfolding check_rule check_record
check_rule-Records name rule (f, e, added) =
    let (records, is_record, e') = bind-some (within "record" rule) _ f e in
    after records is_record e'
  where
    recorded_name : check_record rule ≡ some f → item "record" rule ≡ some (str name)
    recorded_name k =
        let (v, there, k') = bind-some (item "record" rule) _ f k in
        there ∙ ap some (records_name name (hashable v) v f k' added)

    is_alert :
        (alerts : Bool)
        → (if alerts then check_alert rule else some nothing_found) ≡ some f
        → is_recorded name f.recorded ≡ false
    is_alert true k = alert_adds_nothing name rule f k
    is_alert false k = adds_nothing name f k

    after :
        (records : Bool)
        → within "record" rule ≡ some records
        → (if records
            then check_record rule
            else (within "alert" rule
                >>= (λ alerts. if alerts then check_alert rule else some nothing_found)))
          ≡ some f
        → Records name rule
    after true h k = (h, recorded_name k)
    after false h k =
        let (alerts, is, k') = bind-some (within "alert" rule) _ f k in
        let no = is_alert alerts k' in grind arith
