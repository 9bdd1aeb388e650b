-- ===== src/Grpcapi/Resource.antt =====
-- app/grpcapi/resource.py: resources on the gRPC port. `base64.b64encode` and the conversions between
-- a `Struct` and a dictionary are parameters; a configuration is a dictionary here.
use dop_api.Base.{ℕ, String, Bool, Option, none, some, List, [], ◌∷◌, map, nat_eq, string_eq}
use dop_api.Base.Table.{Table, name_of, value_of}
use dop_api.Platform.Json.{Fields}
use dop_api.Platform.Edge.{refusing, Edge, ◌>>=◌, pure}
use dop_api.Coreclient.Client.{Outside}
use dop_api.Usecases.Forms.{new_resource, new_credential, new_grant}
use dop_api.Usecases.Resource.Config.{Struct}
use dop_api.Usecases.Resource.Models.{
  ResourceSummary, CheckResult, GrantSummary, NewGrant, SetCredentialRequest, ResourceStub,
}
use dop_api.Usecases.Resource.{
  list_resources, get_resource, create_resource, set_credential, grant_resource, revoke_grant,
  check_resource,
}

-- `Resource` of app/grpcapi/gen/dop/bff/v1/resource_pb2.pyi.
pub record BffResource : Type 0 where
  pub id : String
  pub kind : ℕ
  pub name : String
  pub version : ℕ
  pub config : Struct
  pub credential_ref : String

-- `CreateResourceRequest`.
pub record BffCreateResource : Type 0 where
  pub kind : ℕ
  pub name : String
  pub config : Option Struct
  pub idempotency_key : String

-- `_NAME_BY_ENUM` and `_ENUM_BY_NAME`.
abbrev pub name_by_enum : Table
name_by_enum = (1, "integration") ∷ (2, "skill") ∷ (3, "workflow") ∷ (4, "git_flow") ∷ []

module _ (struct_of : Fields → Struct) (dict_of : Struct → Fields) where
  -- `_resource`.
  unfoldable pub resource_message : ResourceSummary → BffResource
  resource_message r = record {
    id = r.id;
    kind = value_of name_by_enum r.kind;
    name = r.name;
    version = r.version;
    config = struct_of r.config;
    credential_ref = r.credential_ref;
  }

  abbrev pub given_config : Option Struct → Fields
  given_config none = Fields.end
  given_config (some config) = dict_of config

module _ {W : Type 0} (out : Outside W) (stub : ResourceStub W) (struct_of : Fields → Struct)
    (dict_of : Struct → Fields) (b64decode : String → Option (List ℕ))
    (b64encode : List ℕ → String) where
  unfoldable pub list_resources_rpc : ℕ → Edge W (List BffResource)
  list_resources_rpc kind = do
    rs ← list_resources out stub struct_of b64decode (name_of name_by_enum kind)
    pure (map (resource_message struct_of dict_of) rs)

  unfoldable pub get_resource_rpc : String → Edge W BffResource
  get_resource_rpc id = do
    r ← get_resource out stub struct_of b64decode id
    pure (resource_message struct_of dict_of r)

  unfoldable pub create_resource_rpc : BffCreateResource → Edge W BffResource
  create_resource_rpc request = do
    body ← refusing (
        new_resource (record {
          kind = name_of name_by_enum request.kind;
          name = request.name;
          config = given_config struct_of dict_of request.config;
        }))
    r ← create_resource out stub struct_of b64decode body request.idempotency_key
    pure (resource_message struct_of dict_of r)

  unfoldable pub set_credential_rpc : SetCredentialRequest → Edge W BffResource
  set_credential_rpc request = do
    body ← refusing (new_credential (record { secret_base64 = b64encode request.secret }))
    r ← set_credential out stub struct_of b64decode request.resource_id body
    pure (resource_message struct_of dict_of r)

  unfoldable pub check_resource_rpc : String → Edge W CheckResult
  check_resource_rpc id = check_resource out stub struct_of b64decode id

  unfoldable pub grant_resource_rpc : NewGrant → Edge W GrantSummary
  grant_resource_rpc request = do
    body ← refusing (new_grant request)
    grant_resource out stub struct_of b64decode body

  unfoldable pub revoke_grant_rpc : String → Edge W Bool
  revoke_grant_rpc grant_id = revoke_grant out stub struct_of b64decode grant_id
