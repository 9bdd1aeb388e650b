-- ===== src/Usecases/Demand/Messages.antt =====
-- app/coreclient/gen/dop/v1/demand_pb2.pyi: the messages of the core's demand service, as far as
-- the edge reads and writes them. A `Struct` stands as the dictionary that it is converted to.
use dop_api.Base.{ℕ, String, Bool, Option, List}
use dop_api.Platform.Json.{Fields}
use dop_api.Coreclient.Client.{Rpc}

pub record PbArtifact : Type 0 where
  pub id : String
  pub kind : ℕ
  pub name : String
  pub object_ref : String
  pub version : ℕ

pub record PbDemandStage : Type 0 where
  pub key : String
  pub name : String
  pub type : ℕ
  pub status : ℕ
  pub gate : ℕ
  pub artifacts : List PbArtifact
  pub started_at : Option ℕ
  pub finished_at : Option ℕ

pub record PbDemand : Type 0 where
  pub id : String
  pub project_id : String
  pub external_key : String
  pub title : String
  pub card_type : String
  pub provider_status : String
  pub dop_status : ℕ
  pub flow_id : String
  pub flow_version : ℕ
  pub stages : List PbDemandStage

pub record PbAgentCard : Type 0 where
  pub purpose : String
  pub tools : List String
  pub model : String
  pub effort : String
  pub budget_micros : ℕ

pub record PbThread : Type 0 where
  pub id : String
  pub key : String
  pub blocked : Bool
  pub card : Option PbAgentCard

pub record PbMessage : Type 0 where
  pub id : String
  pub thread_id : String
  pub author_kind : ℕ
  pub author_id : String
  pub author_name : String
  pub text : String
  pub at : Option ℕ

pub record PbFinding : Type 0 where
  pub id : String
  pub thread_id : String
  pub title : String
  pub payload : Option Fields

pub record ListDemandsRequest : Type 0 where
  pub project : Option String
  pub size : ℕ
  pub token : String

pub record ListDemandsResponse : Type 0 where
  pub demands : List PbDemand
  pub next_token : String

pub record ListFindingsRequest : Type 0 where
  pub demand_id : String
  pub thread_id : String

pub record StartDemandRequest : Type 0 where
  pub project : String
  pub external_key : String
  pub idempotency_key : String

pub record AdvanceStageRequest : Type 0 where
  pub demand_id : String
  pub stage_key : String
  pub status : ℕ
  pub idempotency_key : String

pub record DecideGateRequest : Type 0 where
  pub demand_id : String
  pub stage_key : String
  pub approved : Bool
  pub comment : String
  pub idempotency_key : String

pub record CreateThreadRequest : Type 0 where
  pub demand_id : String
  pub key : String
  pub card : Option PbAgentCard
  pub idempotency_key : String

pub record PostMessageRequest : Type 0 where
  pub thread_id : String
  pub text : String
  pub idempotency_key : String

pub record PublishFindingRequest : Type 0 where
  pub demand_id : String
  pub thread_id : String
  pub title : String
  pub payload : Fields
  pub idempotency_key : String

pub record DemandStub (W : Type 0) : Type 0 where
  pub list_demands : Rpc W ListDemandsRequest ListDemandsResponse
  pub get_demand : Rpc W String PbDemand
  pub list_threads : Rpc W String (List PbThread)
  pub list_findings : Rpc W ListFindingsRequest (List PbFinding)
  pub start_demand : Rpc W StartDemandRequest PbDemand
  pub advance_stage : Rpc W AdvanceStageRequest PbDemandStage
  pub decide_gate : Rpc W DecideGateRequest PbDemandStage
  pub create_thread : Rpc W CreateThreadRequest PbThread
  pub post_message : Rpc W PostMessageRequest PbMessage
  pub publish_finding : Rpc W PublishFindingRequest PbFinding
