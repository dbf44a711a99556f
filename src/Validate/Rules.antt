-- ===== src/Validate/Rules.antt =====
-- The checks of the recording rules and the alerts.
use auto_sre.Prelude.{
  Bool, false, ◌&&◌, ◌||◌, Option, none, some, List, [], ◌∷◌, ◌++◌, if◌then◌else◌,
}
use auto_sre.Prelude.Text.{String}
use auto_sre.Storage.Json.{Json, null, bool, num, str, arr, obj, Fields, end, field, get, is_str}
use auto_sre.Validate.Values.{
  Problem, annotations, missing_rule, Check, item, get_or_empty, listed, elements, hashable, within,
  in_set, ◌>>=◌,
}

-- What the rules add: to the recorded names, and to the messages.
pub record Found : Type 0 where
  pub recorded : List Json
  pub problems : List Problem

abbrev pub nothing_found : Found
nothing_found = record { recorded = []; problems = [] }

abbrev pub joined : Found → Found → Found
joined f g = record { recorded = f.recorded ++ g.recorded; problems = f.problems ++ g.problems }

-- A loop that may end in an exception.
unfoldable pub find_all : {A : Type 0} → (A → Option Found) → List A → Option Found
find_all find [] = some nothing_found
find_all find (x ∷ xs) = do f ← find x; g ← find_all find xs; some (joined f g)

-- `{"summary", "description", "runbook_url"} <= set(ann)`
unfoldable pub annotated : Json → Option Bool
annotated ann = do
  summary ← in_set "summary" ann
  description ← in_set "description" ann
  runbook ← in_set "runbook_url" ann
  some (summary && description && runbook)

unfoldable pub check_alert : Json → Option Found
check_alert rule = do
  alert ← item "alert" rule
  ann ← get_or_empty "annotations" rule
  complete ← annotated ann
  if hashable alert
      then some
          (record { recorded = []; problems = if complete then [] else annotations alert ∷ [] })
      else none

unfoldable pub check_record : Json → Option Found
check_record rule = do
  name ← item "record" rule
  if hashable name then some (record { recorded = name ∷ []; problems = [] }) else none

-- The body of the innermost loop.
unfoldable pub check_rule : Json → Option Found
check_rule rule = do
  records ← within "record" rule
  if records then check_record rule else (do
    alerts ← within "alert" rule
    if alerts then check_alert rule else some nothing_found)

abbrev keys : Fields → List Json
keys end = []
keys (field k v rest) = str k ∷ keys rest

-- The elements of `for rule in v`; the characters of a text contain neither word.
abbrev rules_in : Json → Option (List Json)
rules_in (arr xs) = some (elements xs)
rules_in (obj d) = some (keys d)
rules_in (str s) = some []
rules_in null = none
rules_in (bool b) = none
rules_in (num n) = none

abbrev pub rules_of : Json → Option (List Json)
rules_of (obj d) = elim (get "rules" d) [ none ↦ some [] | some v ↦ rules_in v ]
rules_of null = none
rules_of (bool b) = none
rules_of (num n) = none
rules_of (str s) = none
rules_of (arr xs) = none

unfoldable pub check_group : Json → Option Found
check_group group = do rules ← rules_of group; find_all check_rule rules

unfoldable pub check_document : Json → Option Found
check_document doc = do groups ← listed "groups" doc; find_all check_group groups

abbrev pub required : List String
required = "api:request_rate" ∷ "api:error_rate" ∷ "api:latency:p95" ∷ "api:availability" ∷ []

-- `required in recorded`
unfoldable pub is_recorded : String → List Json → Bool
is_recorded name [] = false
is_recorded name (v ∷ vs) = is_str v name || is_recorded name vs

unfoldable pub missing : List String → List Json → List Problem
missing [] recorded = []
missing (name ∷ names) recorded =
    let rest = missing names recorded in
    if is_recorded name recorded then rest else missing_rule name ∷ rest

unfoldable pub check_rules : List Json → Check
check_rules docs = do
  found ← find_all check_document docs
  some (found.problems ++ missing required found.recorded)
