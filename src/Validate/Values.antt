-- ===== src/Validate/Values.antt =====
-- How the script reads parsed documents, with Python's exceptions as `none`. A document's keys are
-- texts.
use auto_sre.Prelude.{
  Bool, true, false, ◌&&◌, ◌||◌, Option, none, some, List, [], ◌∷◌, ◌++◌, if◌then◌else◌,
}
use text.Mathlib.Text.{find?}
use auto_sre.Prelude.Text.{String, str_eq}
use auto_sre.RateLimit.Text.{is_empty}
use auto_sre.Storage.Json.{
  Json, null, bool, num, str, arr, obj, Items, nil, cons, Fields, end, field, get, is_str,
}

infixl 5 ◌>>=◌
abbrev pub ◌>>=◌ : {A B : Type 0} → Option A → (A → Option B) → Option B
none >>= f = none
some a >>= f = f a

-- The messages that `err` collects.
pub data Problem : Type 0 where
  datasource_uid : Problem
  provider_path : Problem
  no_dashboards : Problem
  invalid_json : String → Problem
  missing_uid : String → Problem
  duplicate_ids : String → Problem
  panel_datasource : String → Problem
  target_expr : String → Problem
  annotations : Json → Problem
  missing_rule : String → Problem

-- What a part of the script adds to the messages; `none` is an exception that ends the script.
abbrev pub Check : Type 0
Check = Option (List Problem)

abbrev pub fine : Check
fine = some []

abbrev pub report : Problem → Check
report p = some (p ∷ [])

-- One part after the other.
unfoldable pub also : Check → Check → Check
also none second = none
also (some ps) none = none
also (some ps) (some qs) = some (ps ++ qs)

-- A loop over the elements.
unfoldable pub each : {A : Type 0} → (A → Check) → List A → Check
each check [] = fine
each check (x ∷ xs) = also (check x) (each check xs)

abbrev pub elements : Items → List Json
elements nil = []
elements (cons x xs) = x ∷ elements xs

-- `d[key]`
abbrev pub item : String → Json → Option Json
item key (obj d) = get key d
item key null = none
item key (bool b) = none
item key (num n) = none
item key (str s) = none
item key (arr xs) = none

-- `d[0]`, on what is indexed by a text next: a character of a text ends in an exception then.
abbrev pub first : Json → Option Json
first (arr nil) = none
first (arr (cons x xs)) = some x
first null = none
first (bool b) = none
first (num n) = none
first (str s) = none
first (obj d) = none

-- `d.get(key)`: `none` for what is no dictionary, and null for a key that is not there.
abbrev or_null : Option Json → Json
or_null none = null
or_null (some v) = v

abbrev pub get_of : String → Json → Option Json
get_of key (obj d) = some (or_null (get key d))
get_of key null = none
get_of key (bool b) = none
get_of key (num n) = none
get_of key (str s) = none
get_of key (arr xs) = none

-- The elements of `for x in v`, where each has `get` called on it: a text or a dictionary has texts
-- for elements.
abbrev dicts_in : Json → Option (List Json)
dicts_in (arr xs) = some (elements xs)
dicts_in (obj end) = some []
dicts_in (obj (field k v rest)) = none
dicts_in (str s) = if is_empty s then some [] else none
dicts_in null = none
dicts_in (bool b) = none
dicts_in (num n) = none

-- `v.get(key, [])` and the loop over it.
abbrev pub listed : String → Json → Option (List Json)
listed key (obj d) = elim (get key d) [ none ↦ some [] | some v ↦ dicts_in v ]
listed key null = none
listed key (bool b) = none
listed key (num n) = none
listed key (str s) = none
listed key (arr xs) = none

-- `v.get(key, {})`
abbrev pub get_or_empty : String → Json → Option Json
get_or_empty key (obj d) = elim (get key d) [ none ↦ some (obj end) | some v ↦ some v ]
get_or_empty key null = none
get_or_empty key (bool b) = none
get_or_empty key (num n) = none
get_or_empty key (str s) = none
get_or_empty key (arr xs) = none

-- `hash(v)` is there: a list or a dictionary has none.
abbrev pub hashable : Json → Bool
hashable (arr xs) = false
hashable (obj d) = false
hashable null = true
hashable (bool b) = true
hashable (num n) = true
hashable (str s) = true

abbrev has_key : String → Fields → Bool
has_key key end = false
has_key key (field k v rest) = str_eq k key || has_key key rest

abbrev has_text : String → Items → Bool
has_text text nil = false
has_text text (cons x xs) = is_str x text || has_text text xs

-- `text in v`
unfoldable pub within : String → Json → Option Bool
within text (obj d) = some (has_key text d)
within text (arr xs) = some (has_text text xs)
within text (str s) = elim (find? s text) [ none ↦ some false | some i ↦ some true ]
within text null = none
within text (bool b) = none
within text (num n) = none

abbrev all_hashable : Items → Bool
all_hashable nil = true
all_hashable (cons x xs) = hashable x && all_hashable xs

-- `text in set(v)`, for a text of more than one character.
unfoldable pub in_set : String → Json → Option Bool
in_set text (obj d) = some (has_key text d)
in_set text (arr xs) = if all_hashable xs then some (has_text text xs) else none
in_set text (str s) = some false
in_set text null = none
in_set text (bool b) = none
in_set text (num n) = none
