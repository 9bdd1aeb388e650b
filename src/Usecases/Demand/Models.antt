-- ===== src/Usecases/Demand/Models.antt =====
-- app/usecases/demand.py: the edge's models of a demand.
use dop_api.Base.{ℕ, String, Bool, Option, List}
use dop_api.Platform.Json.{Fields}

pub record Artifact : Type 0 where
  pub id : String
  pub kind : String
  pub name : String
  pub object_ref : String
  pub version : ℕ

pub record Stage : Type 0 where
  pub key : String
  pub name : String
  pub type : String
  pub status : String
  pub gate : String
  pub artifacts : List Artifact
  pub started_at : Option ℕ
  pub finished_at : Option ℕ
  pub awaiting_decision : Bool

pub record Demand : Type 0 where
  pub id : String
  pub project_id : String
  pub external_key : String
  pub title : String
  pub card_type : String
  pub provider_status : String
  pub dop_status : String
  pub flow_id : String
  pub flow_version : ℕ
  pub stages : List Stage
  pub current_stage_key : String
  pub blocked : Bool
  pub awaiting_decision : Bool

pub record DemandPage : Type 0 where
  pub demands : List Demand
  pub next_page_token : String

pub record AgentCard : Type 0 where
  pub purpose : String
  pub tools : List String
  pub model : String
  pub effort : String
  pub budget_micros : ℕ

pub record Thread : Type 0 where
  pub id : String
  pub key : String
  pub blocked : Bool
  pub card : Option AgentCard

pub record Message : Type 0 where
  pub id : String
  pub thread_id : String
  pub author_kind : String
  pub author_id : String
  pub author_name : String
  pub text : String
  pub at : Option ℕ

pub record Finding : Type 0 where
  pub id : String
  pub thread_id : String
  pub title : String
  pub payload : Fields

pub record DemandCockpit : Type 0 where
  pub demand : Demand
  pub threads : List Thread
  pub findings : List Finding

pub record NewDemand : Type 0 where
  pub project_id : String
  pub external_key : String

pub record StageTransition : Type 0 where
  pub status : String

pub record GateDecision : Type 0 where
  pub approved : Bool
  pub comment : String

pub record NewThread : Type 0 where
  pub key : String
  pub card : Option AgentCard

pub record NewMessage : Type 0 where
  pub text : String

pub record NewFinding : Type 0 where
  pub thread_id : String
  pub title : String
  pub payload : Fields
