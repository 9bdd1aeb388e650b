-- ===== src/Usecases/Resource/Config.antt =====
-- app/usecases/resource.py: `_value`, protobuf's `Struct` as plain values.
use dop_api.Base.{String, Bool, nat_eq, string_eq}
use dop_api.Base.Int.{ℤ}
use dop_api.Platform.Json.{Json, Items, Fields}

-- The library's messages `Value`, `ListValue` and `Struct`; `unset` is a value with no kind.
mutual
  pub data Value : Type 0 where
    null_value : Value
    number_value : ℤ → Value
    string_value : String → Value
    bool_value : Bool → Value
    struct_value : Struct → Value
    list_value : Values → Value
    unset : Value

  pub data Values : Type 0 where
    no_value : Values
    a_value : Value → Values → Values

  pub data Struct : Type 0 where
    no_field : Struct
    a_field : String → Value → Struct → Struct

-- `_value`, with its two comprehensions.
abbrev mutual
  pub plain : Value → Json
  plain Value.null_value = Json.null
  plain (Value.number_value n) = Json.num n
  plain (Value.string_value s) = Json.text s
  plain (Value.bool_value b) = Json.bool b
  plain (Value.struct_value fields) = Json.dict (plain_fields fields)
  plain (Value.list_value values) = Json.list (plain_items values)
  plain Value.unset = Json.null

  pub plain_items : Values → Items
  plain_items Values.no_value = Items.nil
  plain_items (Values.a_value v vs) = Items.cons (plain v) (plain_items vs)

  pub plain_fields : Struct → Fields
  plain_fields Struct.no_field = Fields.end
  plain_fields (Struct.a_field k v fs) = Fields.field k (plain v) (plain_fields fs)
