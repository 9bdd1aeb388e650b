-- ===== src/Usecases/Workflow/Messages.antt =====
-- app/coreclient/gen/dop/v1/workflow_pb2.pyi: the messages of the core's workflow service, as far
-- as the edge reads and writes them.
use dop_api.Base.{ℕ, String, Bool, Option, List}
use dop_api.Coreclient.Client.{Rpc}

-- `StageSpec`.
pub record PbStageSpec : Type 0 where
  pub key : String
  pub name : String
  pub type : ℕ
  pub artifacts : List ℕ
  pub gate : ℕ
  pub subtypes : List String

-- `Flow`.
pub record PbFlow : Type 0 where
  pub id : String
  pub name : String
  pub description : String
  pub version : ℕ
  pub owner_scope : String
  pub owner_id : String
  pub stages : List PbStageSpec

-- `EffectiveFlow`: the contributors by their scopes, each origin by its key and scope.
pub record PbEffectiveFlow : Type 0 where
  pub flow : Option PbFlow
  pub resolved_from : String
  pub contributors : List String
  pub origins : List (String × String)

-- `ValidateFlowResponse`.
pub record PbValidation : Type 0 where
  pub valid : Bool
  pub errors : List String
  pub warnings : List String

pub record ListFlowsRequest : Type 0 where
  pub owner_scope : String
  pub owner_id : String

pub record ResolveFlowRequest : Type 0 where
  pub scope : String
  pub scope_id : String

pub record CreateFlowRequest : Type 0 where
  pub flow : PbFlow
  pub idempotency_key : String

pub record PromoteFlowRequest : Type 0 where
  pub flow_id : String
  pub target_scope : String
  pub target_id : String

pub record WorkflowStub (W : Type 0) : Type 0 where
  pub list_flows : Rpc W ListFlowsRequest (List PbFlow)
  pub get_flow : Rpc W String PbFlow
  pub resolve_flow : Rpc W ResolveFlowRequest PbEffectiveFlow
  pub create_flow : Rpc W CreateFlowRequest PbFlow
  pub update_flow : Rpc W PbFlow PbFlow
  pub validate_flow : Rpc W PbFlow PbValidation
  pub promote_flow : Rpc W PromoteFlowRequest PbFlow
