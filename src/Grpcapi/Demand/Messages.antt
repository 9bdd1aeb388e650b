-- ===== src/Grpcapi/Demand/Messages.antt =====
-- app/grpcapi/gen/dop/bff/v1/demand_pb2.pyi: the messages of the edge's own contract. A thread, its
-- card and a message have the fields of the use case's models and stand as those; a `Struct` stands
-- as the dictionary that it is converted to.
use dop_api.Base.{ℕ, String, Bool, Option, List}
use dop_api.Platform.Json.{Fields}
use dop_api.Usecases.Demand.Models.{AgentCard, Thread}

pub record BffArtifact : Type 0 where
  pub id : String
  pub kind : ℕ
  pub name : String
  pub object_ref : String
  pub version : ℕ

pub record BffStage : Type 0 where
  pub key : String
  pub name : String
  pub type : ℕ
  pub status : ℕ
  pub gate : ℕ
  pub artifacts : List BffArtifact
  pub started_at : Option ℕ
  pub finished_at : Option ℕ
  pub awaiting_decision : Bool

pub record BffDemand : Type 0 where
  pub id : String
  pub project_id : String
  pub external_key : String
  pub title : String
  pub card_type : String
  pub provider_status : String
  pub dop_status : ℕ
  pub flow_id : String
  pub flow_version : ℕ
  pub stages : List BffStage
  pub current_stage_key : String
  pub blocked : Bool
  pub awaiting_decision : Bool

pub record BffFinding : Type 0 where
  pub id : String
  pub thread_id : String
  pub title : String
  pub payload : Option Fields

pub record BffDemandCockpit : Type 0 where
  pub demand : BffDemand
  pub threads : List Thread
  pub findings : List BffFinding

-- `ListDemandsResponse`.
pub record BffDemandPage : Type 0 where
  pub demands : List BffDemand
  pub next_page_token : String

-- `AdvanceStageRequest`.
pub record BffAdvanceStage : Type 0 where
  pub demand_id : String
  pub stage_key : String
  pub status : ℕ
  pub idempotency_key : String

-- `CreateThreadRequest`.
pub record BffCreateThread : Type 0 where
  pub demand_id : String
  pub key : String
  pub card : Option AgentCard
  pub idempotency_key : String

-- `PublishFindingRequest`.
pub record BffPublishFinding : Type 0 where
  pub demand_id : String
  pub thread_id : String
  pub title : String
  pub payload : Option Fields
  pub idempotency_key : String
