-- ===== src/Platform/Json.antt =====
-- The values of a `dict` that came from JSON or from a protobuf `Struct`. Only their shape matters
-- to the program, so a number is an integer here.
use dop_api.Base.{String, Bool, Option, none, some, ◌==◌, string_eq, if◌then◌else◌}
use dop_api.Base.Int.{ℤ}

mutual
  pub data Json : Type 0 where
    null : Json
    bool : Bool → Json
    num : ℤ → Json
    text : String → Json
    list : Items → Json
    dict : Fields → Json
    -- Any other value of Python, as a tuple or an object, with what it holds.
    opaque : Items → Json

  pub data Items : Type 0 where
    nil : Items
    cons : Json → Items → Items

  pub data Fields : Type 0 where
    end : Fields
    field : String → Json → Fields → Fields

-- `fields[key]`, where it is present.
abbrev pub entry : String → Fields → Option Json
entry key Fields.end = none
entry key (Fields.field k v fs) = let later = entry key fs in if k == key then some v else later

-- `fields.setdefault(key, value)`.
abbrev pub set_default : String → Json → Fields → Fields
set_default key v Fields.end = Fields.field key v Fields.end
set_default key v (Fields.field k u fs) =
    let later = set_default key v fs in
    if k == key then Fields.field k u fs else Fields.field k u later
