-- ===== src/Grpcapi/Runtime.antt =====
-- app/grpcapi/runtime.py: the turn of an agent on the gRPC port.
pub mod Laws
use dop_api.Base.{
  ℕ, String, Bool, Option, none, List, ◌==◌, nat_eq, string_eq, or_else, if◌then◌else◌,
}
use dop_api.Platform.Errors.{Error, Result, done, raised}
use dop_api.Platform.Edge.{Edge, ◌>>=◌, pure, refusing}
use dop_api.Coreclient.Client.{Outside}
use dop_api.Usecases.Cost.Models.{Money}
use dop_api.Usecases.Runtime.Models.{
  RunTurn, RunTurnRequest, TurnUsage, RoutingView, FindingRef, TurnOutcome, AgentStub,
}
use dop_api.Usecases.Runtime.{is_valid_turn, run_turn}

-- `TurnUsage` of app/grpcapi/gen/dop/bff/v1/runtime_pb2.pyi; its cost is a submessage.
pub record BffTurnUsage : Type 0 where
  pub input_tokens : ℕ
  pub output_tokens : ℕ
  pub cache_read_tokens : ℕ
  pub cache_creation_tokens : ℕ
  pub cost : Option Money
  pub cache_creation_known : Bool
  pub cost_known : Bool

pub record BffTurnOutcome : Type 0 where
  pub demand_id : String
  pub thread_id : String
  pub provider : String
  pub routing : RoutingView
  pub reply : String
  pub message_ids : List String
  pub concluded : Bool
  pub finding : Option FindingRef
  pub usage : BffTurnUsage
  pub context_truncated : Bool
  pub paused : Bool
  pub notice : String

abbrev pub usage_message : TurnUsage → BffTurnUsage
usage_message u = record {
  input_tokens = u.input_tokens;
  output_tokens = u.output_tokens;
  cache_read_tokens = u.cache_read_tokens;
  cache_creation_tokens = u.cache_creation_tokens;
  cost = none;
  cache_creation_known = u.cache_creation_known;
  cost_known = u.cost_known;
}

-- `_outcome`.
pub outcome_message : TurnOutcome → BffTurnOutcome
outcome_message o = record {
  demand_id = o.demand_id;
  thread_id = o.thread_id;
  provider = o.provider;
  routing = o.routing;
  reply = o.reply;
  message_ids = o.message_ids;
  concluded = o.concluded;
  finding = o.finding;
  usage = usage_message o.usage;
  context_truncated = o.context_truncated;
  paused = o.paused;
  notice = o.notice;
}

abbrev pub turn_of : RunTurnRequest → RunTurn
turn_of request = record {
  text = request.text;
  task_kind = or_else request.task_kind "implementation";
  resource_id = request.resource_id;
  operator_note = request.operator_note;
  max_output_tokens = if request.max_output_tokens == 0 then 8192 else request.max_output_tokens;
}

-- The model, as the validation of its fields leaves it.
abbrev pub validated : RunTurn → Result RunTurn
validated body = if is_valid_turn body then done body else raised (Error.validation "RunTurn")

module _ {W : Type 0} (out : Outside W) (stub : AgentStub W) where
  -- `RunTurn`; the request has the fields of the core's.
  unfoldable pub run_turn_rpc : RunTurnRequest → Edge W BffTurnOutcome
  unfolding outcome_message
  run_turn_rpc request = do
    body ← refusing (validated (turn_of request))
    o ← run_turn out stub request.demand_id request.thread_id body request.idempotency_key
    pure (outcome_message o)
