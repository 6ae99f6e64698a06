-- ===== src/Prelude/Json.antt =====
-- JSON values as Python reads them; a number is a natural number. An object is the list of its fields.
use Prim.Native.Nat.{ℕ}
use Prim.Native.String.{String}
use mathlib.Core.Bool.{Bool, true, false, not}
use mathlib.Core.Option.{Option, none, some}
use mathlib.Core.List.{List, [], ◌∷◌}
use sbc_mcu_dut_controller.Prelude.Tests.{if◌then◌else◌, ◌==◌}
use sbc_mcu_dut_controller.Prelude.Text.{str_eq}

mutual
  pub data Json : Type 0 where
    null : Json
    bool : Bool → Json
    num : ℕ → Json
    text : String → Json
    arr : Items → Json
    obj : Fields → Json

  pub data Items : Type 0 where
    no_items : Items
    item : Json → Items → Items

  pub data Fields : Type 0 where
    no_fields : Fields
    field : String → Json → Fields → Fields

-- `d.get(key)`, none where the key is missing
abbrev pub get_field : String → Fields → Option Json
get_field key no_fields = none
get_field key (field k v fs) = if str_eq k key then some v else get_field key fs

-- `d.get(key)` on a value that should be an object
abbrev pub get_key : String → Json → Option Json
get_key key (obj fs) = get_field key fs
get_key key _ = none

-- The items behind `v or []`, for a list
abbrev pub items_of : Items → List Json
items_of no_items = []
items_of (item j js) = j ∷ items_of js

abbrev pub list_of : Option Json → List Json
list_of (some (arr js)) = items_of js
list_of _ = []

-- `bool(v)`, with None for a missing value
abbrev pub is_truthy : Option Json → Bool
is_truthy none = false
is_truthy (some null) = false
is_truthy (some (bool b)) = b
is_truthy (some (num n)) = not (n == 0)
is_truthy (some (text s)) = not (str_eq s "")
is_truthy (some (arr no_items)) = false
is_truthy (some (arr (item j js))) = true
is_truthy (some (obj no_fields)) = false
is_truthy (some (obj (field k v fs))) = true

-- `v == s` for a text
abbrev pub is_text : String → Option Json → Bool
is_text s (some (text t)) = str_eq t s
is_text s _ = false

-- `v == b` for a bool; Python's True is 1 and its False 0
abbrev pub is_bool : Bool → Option Json → Bool
is_bool b (some (bool c)) = if b then c else not c
is_bool b (some (num n)) = n == (if b then 1 else 0)
is_bool b _ = false

-- `d.get(key, default)`, before a comparison
abbrev pub or_default : Option Json → Json → Option Json
or_default none d = some d
or_default (some j) d = some j
