-- ===== src/Usecases/Resource/Laws.antt =====
-- What a filter asks for, and what becomes of a secret and of a configuration.
use dop_api.Usecases.Resource.{config_of, kind_by_name, resource_of, list_resources, revoke_grant}
use dop_api.Base.Table.{value_of-unknown, name_of, value_of, names, name_of-value_of}
use dop_api.Base.{
  ◌∙◌, ap, refl, ◌≡◌, ◌⊎◌, inl, inr, ℕ, String, Bool, true, false, Option, some, List, ◌&&◌, nat_eq,
  string_eq, is_empty, is_in, arith, Bool-cases,
}
use dop_api.Base.Int.{ℤ}
use dop_api.Platform.Json.{Json, Items, Fields}
use dop_api.Platform.Context.{Scope, AuthContext}
use dop_api.Platform.Decorator.{account_scoped}
use dop_api.Coreclient.Client.{Outside, Metadata, call, metadata, metadata_for, request_id}
use dop_api.Coreclient.Client.Laws.{call_alike}
use dop_api.Usecases.Resource.Config.{Value, Values, Struct, plain, plain_items, plain_fields}
use dop_api.Usecases.Resource.Models.{PbResource, ResourceStub}

-- What the library's conversion of plain values does, on each kind of value; `is_exact` says which
-- numbers a `double` holds.
pub record IsConversion (encode : Json → Value) (encode_items : Items → Values)
    (struct_of : Fields → Struct) (is_exact : ℤ → Bool) : Type 0 where
  pub null_kept : plain (encode Json.null) ≡ Json.null
  pub bool_kept : (b : Bool) → encode (Json.bool b) ≡ Value.bool_value b
  pub text_kept : (t : String) → encode (Json.text t) ≡ Value.string_value t
  pub num_kept : (n : ℤ) → is_exact n ≡ true → encode (Json.num n) ≡ Value.number_value n
  pub list_kept : (vs : Items) → encode (Json.list vs) ≡ Value.list_value (encode_items vs)
  pub dict_kept : (fs : Fields) → encode (Json.dict fs) ≡ Value.struct_value (struct_of fs)
  pub nil_kept : encode_items Items.nil ≡ Values.no_value
  pub cons_kept :
      (v : Json) (vs : Items)
      → encode_items (Items.cons v vs) ≡ Values.a_value (encode v) (encode_items vs)
  pub end_kept : struct_of Fields.end ≡ Struct.no_field
  pub field_kept :
      (k : String) (v : Json) (fs : Fields)
      → struct_of (Fields.field k v fs) ≡ Struct.a_field k (encode v) (struct_of fs)

-- Every number in it, at any depth, is exact, and every value is one that JSON has.
abbrev mutual
  pub is_exact_json : (ℤ → Bool) → Json → Bool
  is_exact_json p Json.null = true
  is_exact_json p (Json.bool b) = true
  is_exact_json p (Json.num n) = p n
  is_exact_json p (Json.text t) = true
  is_exact_json p (Json.list vs) = is_exact_items p vs
  is_exact_json p (Json.dict fs) = is_exact_fields p fs
  is_exact_json p (Json.opaque held) = false

  pub is_exact_items : (ℤ → Bool) → Items → Bool
  is_exact_items p Items.nil = true
  is_exact_items p (Items.cons v vs) = is_exact_json p v && is_exact_items p vs

  pub is_exact_fields : (ℤ → Bool) → Fields → Bool
  is_exact_fields p Fields.end = true
  is_exact_fields p (Fields.field k v fs) = is_exact_json p v && is_exact_fields p fs

module _ (encode : Json → Value) (encode_items : Items → Values) (struct_of : Fields → Struct)
    (is_exact : ℤ → Bool) (laws : IsConversion encode encode_items struct_of is_exact) where
  mutual
    plain-encode : (v : Json) → is_exact_json is_exact v ≡ true → plain (encode v) ≡ v
    plain-encode Json.null h = laws.null_kept
    plain-encode (Json.bool b) h = ap plain (laws.bool_kept b)
    plain-encode (Json.num n) h = ap plain (laws.num_kept n h)
    plain-encode (Json.text t) h = ap plain (laws.text_kept t)
    plain-encode (Json.list vs) h =
        ap plain (laws.list_kept vs) ∙ ap Json.list (plain_items-encode vs h)
    plain-encode (Json.opaque held) h = absurd (ground arith)
    plain-encode (Json.dict fs) h =
        ap plain (laws.dict_kept fs) ∙ ap Json.dict (plain_fields-encode fs h)

    plain_items-encode :
        (vs : Items) → is_exact_items is_exact vs ≡ true → plain_items (encode_items vs) ≡ vs
    plain_items-encode Items.nil h = ap plain_items laws.nil_kept
    plain_items-encode (Items.cons v vs) h =
        ap plain_items (laws.cons_kept v vs)
        ∙ cc (plain-encode v (ground arith), plain_items-encode vs (ground arith))

    plain_fields-encode :
        (fs : Fields) → is_exact_fields is_exact fs ≡ true → plain_fields (struct_of fs) ≡ fs
    plain_fields-encode Fields.end h = ap plain_fields laws.end_kept
    plain_fields-encode (Fields.field k v fs) h =
        ap plain_fields (laws.field_kept k v fs)
        ∙ cc (plain-encode v (ground arith), plain_fields-encode fs (ground arith))

  -- A configuration of any depth that the edge stores with the library's conversion reads back as it
  -- was written, if its numbers are ones that a `double` holds.
  resource_of-config :
      (r : PbResource) (config : Fields)
      → is_exact_fields is_exact config ≡ true
      → r.config ≡ some (struct_of config)
      → (resource_of r).config ≡ config
  unfolding resource_of
  resource_of-config r config exact stored = ap config_of stored ∙ plain_fields-encode config exact

module _ {W : Type 0} (out : Outside W) (stub : ResourceStub W) (struct_of : Fields → Struct)
    (b64decode : String → Option (List ℕ)) (s : Scope) (w : W) where
  -- A filter on a kind asks the core for resources of that very kind; a kind that the platform does
  -- not know asks for all of them, as no filter does.
  list_resources_kind :
      (kind : String) (other : ResourceStub W)
      → is_empty kind ≡ false
      → ((md : Metadata) (n : ℕ) (v : W)
          → name_of kind_by_name n ≡ kind
          → stub.list_resources md n v ≡ other.list_resources md n v)
      → (list_resources out stub struct_of b64decode kind s w
          ≡ list_resources out other struct_of b64decode kind s w)
        ⊎ ((is_in kind (names kind_by_name) ≡ false)
            × (list_resources out stub struct_of b64decode kind s w
                ≡ list_resources out stub struct_of b64decode "" s w))
  unfolding list_resources account_scoped
  list_resources_kind kind other given alike = elim (Bool-cases (is_in kind (names kind_by_name))) [
    | inl known ↦
        let n = value_of kind_by_name kind in
        let same : (md : Metadata) (v : W)
            → stub.list_resources md n v ≡ other.list_resources md n v =
          λ md v. alike md n v (name_of-value_of kind_by_name kind refl known) in
        inl (ground (arith, call_alike out stub.list_resources other.list_resources n s w same))
    | inr unknown ↦ inr (unknown, ground (arith, value_of-unknown kind_by_name kind unknown))
  ]

  -- Revoking a grant is the same call whatever role the caller has: the edge sends a viewer's request
  -- to the core as it sends an owner's.
  revoke_grant_any_role :
      (ctx : AuthContext) (role id : String)
      → s.auth_ctx ≡ some ctx
      → revoke_grant out stub struct_of b64decode id
          (record s { auth_ctx = some (record ctx { role = role }) })
          w
        ≡ revoke_grant out stub struct_of b64decode id s w
  unfolding revoke_grant call metadata metadata_for request_id
  revoke_grant_any_role ctx role id here = rw here refl
