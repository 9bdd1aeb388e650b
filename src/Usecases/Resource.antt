-- ===== src/Usecases/Resource.antt =====
-- app/usecases/resource.py: integrations, skills and flows, with their credentials and grants. The
-- library's `Struct.update` and `base64.b64decode`, `none` where it raises, are parameters.
pub mod Config
pub mod Models
pub mod Laws
use dop_api.Base.{
  ℕ, String, Bool, Option, none, some, List, [], ◌∷◌, map, nat_eq, string_eq, is_empty,
  if◌then◌else◌,
}
use dop_api.Base.Table.{Table, name_of, value_of}
use dop_api.Platform.Json.{Fields}
use dop_api.Platform.Errors.{Error, Result, done, raised}
use dop_api.Platform.Edge.{Edge, ◌>>=◌, pure, refusing}
use dop_api.Platform.Decorator.{account_scoped, require_role, managers}
use dop_api.Coreclient.Client.{Outside, call, idempotency}
use Config.{Struct, plain_fields}
use Models.{
  ResourceSummary, NewResource, CheckResult, NewCredential, GrantSummary, NewGrant, PbResource,
  PbGrant, ResourceStub,
}

-- `_KIND_BY_NAME` and `_NAME_BY_KIND`; 0 is KIND_UNSPECIFIED.
abbrev pub kind_by_name : Table
kind_by_name = (1, "integration") ∷ (2, "skill") ∷ (3, "workflow") ∷ (4, "git_flow") ∷ []

abbrev pub config_of : Option Struct → Fields
config_of none = Fields.end
config_of (some fields) = plain_fields fields

-- `_resource`.
pub resource_of : PbResource → ResourceSummary
resource_of r = record {
  id = r.id;
  kind = name_of kind_by_name r.kind;
  name = r.name;
  version = r.version;
  config = config_of r.config;
  credential_ref = r.credential_ref;
}

abbrev pub grant_of : PbGrant → GrantSummary
grant_of g = record { id = g.id; resource_id = g.resource; user_id = g.user; level = g.level }

-- `base64.b64decode`.
abbrev pub decoded : Option (List ℕ) → Result (List ℕ)
decoded none = raised (Error.failure "binascii.Error")
decoded (some bytes) = done bytes

module _ {W : Type 0} (out : Outside W) (stub : ResourceStub W) (struct_of : Fields → Struct)
    (b64decode : String → Option (List ℕ)) where
  pub list_resources : String → Edge W (List ResourceSummary)
  unfolding resource_of
  list_resources kind = account_scoped do
    rs ← call out stub.list_resources (if is_empty kind then 0 else value_of kind_by_name kind)
    pure (map resource_of rs)

  unfoldable pub get_resource : String → Edge W ResourceSummary
  unfolding resource_of
  get_resource id = account_scoped do r ← call out stub.get_resource id; pure (resource_of r)

  unfoldable pub create_resource : NewResource → String → Edge W ResourceSummary
  unfolding resource_of
  create_resource body idempotency_key = account_scoped do
    key ← idempotency out idempotency_key
    r ← call out stub.create_resource (record {
      kind = value_of kind_by_name body.kind;
      name = body.name;
      config = struct_of body.config;
      idempotency_key = key;
    })
    pure (resource_of r)

  -- The second call reads the resource anew.
  unfoldable pub set_credential : String → NewCredential → Edge W ResourceSummary
  unfolding resource_of
  set_credential id body = account_scoped do
    secret ← refusing (decoded (b64decode body.secret_base64))
    _ ← call out stub.set_credential (record { resource_id = id; secret = secret })
    r ← call out stub.get_resource id
    pure (resource_of r)

  unfoldable pub grant_resource : NewGrant → Edge W GrantSummary
  grant_resource body =
      account_scoped
        (require_role managers do g ← call out stub.grant_resource body; pure (grant_of g))

  unfoldable pub list_member_grants : String → Edge W (List GrantSummary)
  list_member_grants user_id = account_scoped (
      require_role managers
        do gs ← call out stub.list_member_grants user_id; pure (map grant_of gs))

  -- No decorator stands on it.
  pub revoke_grant : String → Edge W Bool
  revoke_grant grant_id = do revoked ← call out stub.revoke_grant grant_id; pure revoked

  unfoldable pub check_resource : String → Edge W CheckResult
  check_resource id = account_scoped do r ← call out stub.check_resource id; pure r
