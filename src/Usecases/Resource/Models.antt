-- ===== src/Usecases/Resource/Models.antt =====
-- app/usecases/resource.py: the edge's models, with the messages of
-- app/coreclient/gen/dop/v1/resource_pb2.pyi that they are made from.
use dop_api.Base.{ℕ, String, Bool, Option, List, nat_eq, string_eq}
use dop_api.Platform.Json.{Fields}
use dop_api.Coreclient.Client.{Rpc}
use dop_api.Usecases.Resource.Config.{Struct}

pub record ResourceSummary : Type 0 where
  pub id : String
  pub kind : String
  pub name : String
  pub version : ℕ
  pub config : Fields
  pub credential_ref : String

pub record NewResource : Type 0 where
  pub kind : String
  pub name : String
  pub config : Fields

-- Also the message of that name.
pub record CheckResult : Type 0 where
  pub operated : Bool
  pub ok : Bool
  pub identity : String
  pub message : String

pub record NewCredential : Type 0 where
  pub secret_base64 : String

pub record GrantSummary : Type 0 where
  pub id : String
  pub resource_id : String
  pub user_id : String
  pub level : String

pub record NewGrant : Type 0 where
  pub resource_id : String
  pub user_id : String
  pub level : String

-- `Resource`.
pub record PbResource : Type 0 where
  pub id : String
  pub kind : ℕ
  pub name : String
  pub version : ℕ
  pub config : Option Struct
  pub credential_ref : String

pub record CreateResourceRequest : Type 0 where
  pub kind : ℕ
  pub name : String
  pub config : Struct
  pub idempotency_key : String

-- The secret is a list of bytes.
pub record SetCredentialRequest : Type 0 where
  pub resource_id : String
  pub secret : List ℕ

-- `ResourceGrant`.
pub record PbGrant : Type 0 where
  pub id : String
  pub resource : String
  pub user : String
  pub level : String

pub record ResourceStub (W : Type 0) : Type 0 where
  pub list_resources : Rpc W ℕ (List PbResource)
  pub get_resource : Rpc W String PbResource
  pub create_resource : Rpc W CreateResourceRequest PbResource
  pub set_credential : Rpc W SetCredentialRequest String
  pub grant_resource : Rpc W NewGrant PbGrant
  pub list_member_grants : Rpc W String (List PbGrant)
  pub revoke_grant : Rpc W String Bool
  pub check_resource : Rpc W String CheckResult
