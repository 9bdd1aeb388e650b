-- ===== src/Routers/Resource.antt =====
-- app/routers/resource.py: each route is its use case.
use dop_api.Base.{ℕ, String, Bool, Option, List, nat_eq, string_eq}
use dop_api.Platform.Json.{Fields}
use dop_api.Platform.Edge.{Edge}
use dop_api.Coreclient.Client.{Outside}
use dop_api.Usecases.Resource.Config.{Struct}
use dop_api.Usecases.Resource.Models.{
  ResourceSummary, NewResource, CheckResult, NewCredential, GrantSummary, NewGrant, ResourceStub,
}
use dop_api.Usecases.Resource

module _ {W : Type 0} (out : Outside W) (stub : ResourceStub W) (struct_of : Fields → Struct)
    (b64decode : String → Option (List ℕ)) where
  unfoldable pub list_resources : String → Edge W (List ResourceSummary)
  list_resources kind = Resource.list_resources out stub struct_of b64decode kind

  unfoldable pub create_resource : NewResource → String → Edge W ResourceSummary
  create_resource body idempotency_key =
      Resource.create_resource out stub struct_of b64decode body idempotency_key

  unfoldable pub get_resource : String → Edge W ResourceSummary
  get_resource resource_id = Resource.get_resource out stub struct_of b64decode resource_id

  unfoldable pub set_credential : String → NewCredential → Edge W ResourceSummary
  set_credential resource_id body =
      Resource.set_credential out stub struct_of b64decode resource_id body

  unfoldable pub list_member_grants : String → Edge W (List GrantSummary)
  list_member_grants user_id = Resource.list_member_grants out stub struct_of b64decode user_id

  unfoldable pub grant_resource : NewGrant → Edge W GrantSummary
  grant_resource body = Resource.grant_resource out stub struct_of b64decode body

  unfoldable pub revoke_grant : String → Edge W Bool
  revoke_grant grant_id = Resource.revoke_grant out stub struct_of b64decode grant_id

  unfoldable pub check_resource : String → Edge W CheckResult
  check_resource resource_id = Resource.check_resource out stub struct_of b64decode resource_id
