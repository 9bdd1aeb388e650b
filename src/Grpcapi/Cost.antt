-- ===== src/Grpcapi/Cost.antt =====
-- app/grpcapi/cost.py: cost on the gRPC port. The messages that are answered have the fields of the
-- use case's models and stand as those: an absent remainder and an absent date stay absent. What a
-- client sends is signed.
use dop_api.Base.{String, nat_eq, string_eq, or_else}
use dop_api.Base.Int.{ℤ}
use dop_api.Platform.Edge.{Edge, ◌>>=◌, refusing}
use dop_api.Coreclient.Client.{Outside}
use dop_api.Usecases.Cost.Models.{
  BudgetView, NewBudget, RoutingDecision, NewUsage, RecordUsageOutcome, CostSummary, CostStub,
}
use dop_api.Usecases.Cost.{route_model, get_budget, set_budget, record_usage, summarize_cost}
use dop_api.Usecases.Forms.{natural, new_budget, new_usage}

-- `SetBudgetRequest` of app/grpcapi/gen/dop/bff/v1/cost_pb2.pyi.
pub record BffSetBudget : Type 0 where
  pub scope : String
  pub scope_id : String
  pub limit_micros : ℤ

-- `UsageEvent`, as far as a recording reads it; the cost is read with its currency.
pub record BffUsage : Type 0 where
  pub demand_id : String
  pub thread_id : String
  pub model : String
  pub input_tokens : ℤ
  pub output_tokens : ℤ
  pub cache_read_tokens : ℤ
  pub cache_creation_tokens : ℤ
  pub currency : String
  pub amount_micros : ℤ

module _ {W : Type 0} where
  -- The body of `SetBudget`, with its validation.
  unfoldable pub budget_of : BffSetBudget → Edge W NewBudget
  budget_of request = do
    limit ← refusing (natural "limit_micros" request.limit_micros)
    refusing (
        new_budget (record {
          scope = or_else request.scope "account";
          scope_id = request.scope_id;
          limit_micros = limit;
        }))

  -- The body of `RecordUsage`, with its validation.
  unfoldable pub usage_of : BffUsage → Edge W NewUsage
  usage_of u = do
    input ← refusing (natural "input_tokens" u.input_tokens)
    output ← refusing (natural "output_tokens" u.output_tokens)
    cache_read ← refusing (natural "cache_read_tokens" u.cache_read_tokens)
    cache_creation ← refusing (natural "cache_creation_tokens" u.cache_creation_tokens)
    micros ← refusing (natural "cost_micros" u.amount_micros)
    refusing (
        new_usage (record {
          model = u.model;
          demand_id = u.demand_id;
          thread_id = u.thread_id;
          input_tokens = input;
          output_tokens = output;
          cache_read_tokens = cache_read;
          cache_creation_tokens = cache_creation;
          cost_micros = micros;
          currency = u.currency;
        }))

module _ {W : Type 0} (out : Outside W) (stub : CostStub W) where
  unfoldable pub route_model_rpc : String → String → Edge W RoutingDecision
  route_model_rpc task_kind demand_id = route_model out stub task_kind demand_id

  unfoldable pub get_budget_rpc : String → String → Edge W BudgetView
  get_budget_rpc scope scope_id = get_budget out stub scope scope_id

  unfoldable pub set_budget_rpc : BffSetBudget → Edge W BudgetView
  set_budget_rpc request = do body ← budget_of request; set_budget out stub body

  unfoldable pub record_usage_rpc : BffUsage → String → Edge W RecordUsageOutcome
  record_usage_rpc usage key = do body ← usage_of usage; record_usage out stub body key

  unfoldable pub summarize_cost_rpc : String → String → Edge W CostSummary
  summarize_cost_rpc scope scope_id = summarize_cost out stub scope scope_id
