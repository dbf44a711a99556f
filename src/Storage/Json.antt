-- ===== src/Storage/Json.antt =====
-- JSON values as Python holds them after `json.loads`, and `dict.get` on an object.
use auto_sre.Prelude.{Bool, false, Option, none, some, if◌then◌else◌}
use auto_sre.Prelude.Int.{ℤ}
use auto_sre.Prelude.Text.{String, str_eq}

-- A number stands for its value in a fixed unit, whole or not.
mutual
  pub data Json : Type 0 where
    null : Json
    bool : Bool → Json
    num : ℤ → Json
    str : String → Json
    arr : Items → Json
    obj : Fields → Json

  pub data Items : Type 0 where
    nil : Items
    cons : Json → Items → Items

  pub data Fields : Type 0 where
    end : Fields
    field : String → Json → Fields → Fields

-- `d.get(key)`: `none` for a key that is not there.
abbrev pub get : String → Fields → Option Json
get key end = none
get key (field k v rest) = if str_eq k key then some v else get key rest

-- `value == text`, for a value of any type.
abbrev pub is_str : Json → String → Bool
is_str (str s) text = str_eq s text
is_str null text = false
is_str (bool b) text = false
is_str (num n) text = false
is_str (arr xs) text = false
is_str (obj fs) text = false

-- The arguments of one call `record_event(source, event, **details)`.
pub record Emitted : Type 0 where
  pub source : String
  pub event : String
  pub details : Fields
