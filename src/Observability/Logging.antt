-- ===== src/Observability/Logging.antt =====
-- `JsonFormatter` of shared/autosre_shared/logging.py.
use auto_sre.Prelude.{
  ◌≡◌, refl, ap, Bool, ◌||◌, Option, none, some, arith, if◌then◌else◌, Bool-cases, Option-cases,
  inl, inr,
}
use auto_sre.Prelude.Text.{String, str_eq, eq_iff, starts_with}
use auto_sre.Storage.Json.{Json, str, Fields, end, field, get}
use auto_sre.Observability.Asgi.{Vars}

-- What the formatter reads of a `logging.LogRecord`: the time as `formatTime` writes it, the level's
-- name, the logger's name, the message, the formatted exception where there is one, and the
-- attributes of the record, which hold the structured extras.
pub record LogRecord : Type 0 where
  pub time : String
  pub level : String
  pub logger : String
  pub message : String
  pub exc_info : Option String
  pub attributes : Fields

-- `payload.setdefault(key, value)`
unfoldable pub setdefault : String → Json → Fields → Fields
setdefault key value end = field key value end
setdefault key value (field k v rest) =
    if str_eq k key then field k v rest else field k v (setdefault key value rest)

abbrev with_exc : Option String → Fields
with_exc none = end
with_exc (some text) = field "exc" (str text) end

-- The payload before the extras.
unfoldable pub payload : Vars → LogRecord → Fields
payload vars record' = field "ts" (str record'.time) (
    field "level" (str record'.level) (
      field "logger" (str record'.logger) (
        field "msg" (str record'.message) (
          field "request_id" (str vars.request_id)
            (field "correlation_id" (str vars.correlation_id) (with_exc record'.exc_info))))))

-- `of_record` is whether a name is an attribute of every `LogRecord`.
module _ (of_record : String → Bool) where
  -- `key in _RESERVED or key.startswith("_")`
  unfoldable pub hidden : String → Bool
  hidden key = of_record key || str_eq key "message" || str_eq key "asctime" || starts_with key "_"

  -- The loop over the attributes.
  unfoldable pub add_extras : Fields → Fields → Fields
  add_extras end acc = acc
  add_extras (field key value rest) acc =
      add_extras rest (if hidden key then acc else setdefault key value acc)

  -- `format`, up to `json.dumps`.
  unfoldable pub format : Vars → LogRecord → Fields
  format vars record' = add_extras record'.attributes (payload vars record')

  abbrev or_found : Option Json → Option Json → Option Json
  or_found none other = other
  or_found (some value) other = some value

  get-setdefault :
      (key k : String) (value : Json) (fields : Fields)
      → get key (setdefault k value fields)
        ≡ or_found (get key fields) (if str_eq k key then some value else none)
  unfolding setdefault
  get-setdefault key k value end = refl
  get-setdefault key k value (field j v rest) =
      ground (arith, eq_iff j k, eq_iff j key, eq_iff k key, get-setdefault key k value rest)

  get-add_extras :
      (key : String) (extras acc : Fields)
      → get key (add_extras extras acc)
        ≡ or_found (get key acc) (if hidden key then none else get key extras)
  unfolding add_extras
  get-add_extras key end acc = elim (Option-cases (get key acc)) [
    | inl missing ↦ rw missing (ground arith)
    | inr (value, there) ↦ rw there refl
  ]
  get-add_extras key (field k v rest) acc =
      let skipped = get-add_extras key rest acc in
      let added = get-add_extras key rest (setdefault k v acc) in
      let put = get-setdefault key k v acc in
      elim (Bool-cases (str_eq k key)) [
        | inl same ↦
            let e = (eq_iff k key).0 same in
            let alike : hidden k ≡ hidden key = ap hidden e in ground arith
        | inr apart ↦ ground arith
      ]

  -- What a log line says under a key: the formatter's own field, if it has the key; else the value of
  -- the record's attribute of that name, unless it starts with "_", belongs to every record, or is
  -- "message" or "asctime"; else nothing. So no structured extra changes a field of the formatter.
  pub get-format :
      (vars : Vars) (record' : LogRecord) (key : String)
      → get key (format vars record')
        ≡ or_found
            (get key (payload vars record'))
            (if hidden key then none else get key record'.attributes)
  unfolding format
  get-format vars record' key = get-add_extras key record'.attributes (payload vars record')
