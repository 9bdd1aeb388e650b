-- ===== src/Routers/Cost.antt =====
-- app/routers/cost.py: each route is its use case, after the constraint on its query.
use dop_api.Base.{String, nat_eq, string_eq}
use dop_api.Platform.Edge.{Edge, ◌>>=◌, refusing}
use dop_api.Coreclient.Client.{Outside}
use dop_api.Usecases.Cost.Models.{
  BudgetView, NewBudget, RoutingDecision, NewUsage, RecordUsageOutcome, CostSummary, CostStub,
}
use dop_api.Usecases.Forms.{given}
use dop_api.Usecases.Cost

module _ {W : Type 0} (out : Outside W) (stub : CostStub W) where
  unfoldable pub route_model : String → String → Edge W RoutingDecision
  route_model task_kind demand_id = do
    _ ← refusing (given "task_kind" task_kind)
    Cost.route_model out stub task_kind demand_id

  unfoldable pub get_budget : String → String → Edge W BudgetView
  get_budget scope scope_id = Cost.get_budget out stub scope scope_id

  unfoldable pub set_budget : NewBudget → Edge W BudgetView
  set_budget body = Cost.set_budget out stub body

  unfoldable pub record_usage : NewUsage → String → Edge W RecordUsageOutcome
  record_usage body idempotency_key = Cost.record_usage out stub body idempotency_key

  unfoldable pub summarize_cost : String → String → Edge W CostSummary
  summarize_cost scope scope_id = Cost.summarize_cost out stub scope scope_id
