-- ===== src/Usecases/Execution/Models.antt =====
-- app/usecases/execution.py: the edge's models, with the messages of
-- app/coreclient/gen/dop/v1/execution_pb2.pyi that they are made from. The two kinds of endpoint
-- have the same fields.
use dop_api.Base.{ℕ, String, Bool, Option, List, nat_eq, string_eq}
use dop_api.Coreclient.Client.{Rpc}

pub record EndpointSummary : Type 0 where
  pub name : String
  pub url : String
  pub port : ℕ
  pub state : String

pub record SandboxSummary : Type 0 where
  pub id : String
  pub demand_id : String
  pub state : String
  pub tier : String
  pub namespace : String
  pub endpoints : List EndpointSummary
  pub last_active_at : Option ℕ

pub record NewSandbox : Type 0 where
  pub demand_id : String
  pub min_tier : String

pub record DestroyResult : Type 0 where
  pub destroyed : Bool

-- `Sandbox`.
pub record PbSandbox : Type 0 where
  pub id : String
  pub demand_id : String
  pub state : ℕ
  pub tier : ℕ
  pub namespace : String
  pub endpoints : List EndpointSummary
  pub last_active_at : Option ℕ

pub record ProvisionSandboxRequest : Type 0 where
  pub demand_id : String
  pub min_tier : ℕ
  pub idempotency_key : String

pub record ExecutionStub (W : Type 0) : Type 0 where
  pub provision : Rpc W ProvisionSandboxRequest PbSandbox
  pub describe : Rpc W String PbSandbox
  pub suspend : Rpc W String PbSandbox
  pub resume : Rpc W String PbSandbox
  pub destroy : Rpc W String Bool
