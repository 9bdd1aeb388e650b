-- ===== src/Usecases/Runtime/Models.antt =====
-- app/usecases/runtime.py: the edge's models, with the messages of
-- app/coreclient/gen/dop/v1/agent_pb2.pyi that they are made from.
use dop_api.Base.{ℕ, String, Bool, Option, List, nat_eq, string_eq}
use dop_api.Coreclient.Client.{Rpc}
use dop_api.Usecases.Cost.Models.{Money}

pub record RunTurn : Type 0 where
  pub text : String
  pub task_kind : String
  pub resource_id : String
  pub operator_note : String
  pub max_output_tokens : ℕ

-- Also the message of that name.
pub record TurnUsage : Type 0 where
  pub input_tokens : ℕ
  pub output_tokens : ℕ
  pub cache_read_tokens : ℕ
  pub cache_creation_tokens : ℕ
  pub cost : Money
  pub cache_creation_known : Bool
  pub cost_known : Bool

pub record RoutingView : Type 0 where
  pub task_kind : String
  pub model : String
  pub effort : String
  pub effort_applied : String
  pub reason : String
  pub from_agent_card : Bool

pub record FindingRef : Type 0 where
  pub id : String
  pub title : String

pub record TurnOutcome : Type 0 where
  pub demand_id : String
  pub thread_id : String
  pub provider : String
  pub routing : RoutingView
  pub reply : String
  pub message_ids : List String
  pub concluded : Bool
  pub finding : Option FindingRef
  pub usage : TurnUsage
  pub context_truncated : Bool
  pub paused : Bool
  pub notice : String

-- `TurnRouting`.
pub record TurnRouting : Type 0 where
  pub task_kind : String
  pub model_class : String
  pub model : String
  pub effort : String
  pub effort_applied : String
  pub reason : String
  pub from_agent_card : Bool

-- `TurnOutcome`.
pub record PbTurnOutcome : Type 0 where
  pub demand : String
  pub thread_id : String
  pub provider : String
  pub routing : TurnRouting
  pub reply : String
  pub message_ids : List String
  pub concluded : Bool
  pub finding : Option FindingRef
  pub usage : TurnUsage
  pub context_truncated : Bool
  pub paused : Bool
  pub notice : String

pub record RunTurnRequest : Type 0 where
  pub demand_id : String
  pub thread_id : String
  pub text : String
  pub task_kind : String
  pub resource_id : String
  pub operator_note : String
  pub max_output_tokens : ℕ
  pub idempotency_key : String

pub record AgentStub (W : Type 0) : Type 0 where
  pub run_turn : Rpc W RunTurnRequest PbTurnOutcome
