-- ===== src/Usecases/Cost/Models.antt =====
-- app/usecases/cost.py: the edge's models, with the core's messages that they are made from. An
-- instant is in microseconds, a ratio is the core's number as text.
use dop_api.Base.{ℕ, String, Bool, Option, List}
use dop_api.Base.Int.{ℤ}
use dop_api.Coreclient.Client.{Rpc}

pub record Money : Type 0 where
  pub currency : String
  pub amount_micros : ℤ

pub record BudgetView : Type 0 where
  pub scope : String
  pub scope_id : String
  pub limit : Money
  pub spent : Money
  pub remaining : Option Money

pub record NewBudget : Type 0 where
  pub scope : String
  pub scope_id : String
  pub limit_micros : ℕ

pub record RoutingDecision : Type 0 where
  pub task_kind : String
  pub model : String
  pub effort : String
  pub reason : String

pub record UsageEventSummary : Type 0 where
  pub id : String
  pub demand_id : String
  pub thread_id : String
  pub model : String
  pub input_tokens : ℕ
  pub output_tokens : ℕ
  pub cache_read_tokens : ℕ
  pub cache_creation_tokens : ℕ
  pub cost : Money
  pub at : Option ℕ

pub record NewUsage : Type 0 where
  pub model : String
  pub demand_id : String
  pub thread_id : String
  pub input_tokens : ℕ
  pub output_tokens : ℕ
  pub cache_read_tokens : ℕ
  pub cache_creation_tokens : ℕ
  pub cost_micros : ℕ
  pub currency : String

pub record RecordUsageOutcome : Type 0 where
  pub recorded : Bool
  pub budget_exceeded : Bool
  pub notice : String
  pub budgets : List BudgetView

pub record CostSummary : Type 0 where
  pub total : Money
  pub cache_hit_ratio : String
  pub recent : List UsageEventSummary

-- `dop.v1`'s messages, as far as the edge reads and writes them.
pub record PbBudget : Type 0 where
  pub scope : String
  pub scope_id : String
  pub currency : String
  pub limit_micros : ℤ
  pub spent_micros : ℤ

pub record PbUsageEvent : Type 0 where
  pub id : String
  pub demand : Option String
  pub thread_id : String
  pub model : String
  pub input_tokens : ℕ
  pub output_tokens : ℕ
  pub cache_read_tokens : ℕ
  pub cache_creation_tokens : ℕ
  pub cost : Money
  pub at : Option ℕ

pub record PbCostSummary : Type 0 where
  pub total : Money
  pub cache_hit_ratio : String
  pub recent : List PbUsageEvent

pub record RecordUsageRequest : Type 0 where
  pub usage : PbUsageEvent
  pub idempotency_key : String

pub record RecordUsageResponse : Type 0 where
  pub recorded : Bool
  pub budget_exceeded : Bool

pub record RouteModelRequest : Type 0 where
  pub task_kind : String
  pub demand_id : String

-- `GetBudgetRequest` and `SummarizeCostRequest`.
pub record ScopeRequest : Type 0 where
  pub scope : String
  pub scope_id : String

pub record CostStub (W : Type 0) : Type 0 where
  pub route_model : Rpc W RouteModelRequest RoutingDecision
  pub get_budget : Rpc W ScopeRequest PbBudget
  pub set_budget : Rpc W PbBudget PbBudget
  pub record_usage : Rpc W RecordUsageRequest RecordUsageResponse
  pub summarize_cost : Rpc W ScopeRequest PbCostSummary
