-- ===== src/Usecases/Cost.antt =====
-- app/usecases/cost.py: budgets and consumption, in integer micros.
pub mod Models
pub mod Laws
pub mod Recorded
use dop_api.Base.{
  ◌-◌, String, true, false, none, some, List, [], ◌∷◌, map, not, nat_eq, string_eq, is_empty,
  or_else, or_text, join, ◌<>◌, if◌then◌else◌,
}
use dop_api.Base.Int.{pos, ltb_ℤ, ◌-ℤ◌, max}
use dop_api.Platform.Edge.{Edge, ◌>>=◌, pure, for_each}
use dop_api.Platform.Decorator.{account_scoped, require_role, managers}
use dop_api.Coreclient.Client.{Outside, call, idempotency}
use Models.{
  BudgetView, NewBudget, RoutingDecision, UsageEventSummary, NewUsage, RecordUsageOutcome,
  CostSummary, PbBudget, PbUsageEvent, RecordUsageResponse, ScopeRequest, CostStub,
}

-- `_budget_view`.
unfoldable pub budget_view : PbBudget → BudgetView
budget_view b = record {
  scope = b.scope;
  scope_id = b.scope_id;
  limit = record { currency = b.currency; amount_micros = b.limit_micros };
  spent = record { currency = b.currency; amount_micros = b.spent_micros };
  remaining =
      if ltb_ℤ (pos 0) b.limit_micros
      then some (record {
        currency = b.currency;
        amount_micros = max (b.limit_micros -ℤ b.spent_micros) (pos 0);
      })
      else none;
}

-- `_usage`.
abbrev pub usage_of : PbUsageEvent → UsageEventSummary
usage_of u = record {
  id = u.id;
  demand_id = or_text u.demand "";
  thread_id = u.thread_id;
  model = u.model;
  input_tokens = u.input_tokens;
  output_tokens = u.output_tokens;
  cache_read_tokens = u.cache_read_tokens;
  cache_creation_tokens = u.cache_creation_tokens;
  cost = u.cost;
  at = u.at;
}

-- `_overrun_notice`.
abbrev pub overrun_notice : List BudgetView → String
overrun_notice scopes =
    let targets =
      or_else (join ", " (map (λ (b : BudgetView). b.scope <> ":" <> b.scope_id) scopes))
        "the active account" in
    "Budget exceeded (" <> targets
    <> "). The demand PAUSES and becomes an item in the attention box (ADR-0008 §2): it is not cut off halfway nor does it keep burning. A human decides — raise the ceiling, cut scope or close it. Consumption keeps being measured meanwhile."

-- The scopes whose budgets may be blown.
abbrev pub wanted : String → List ScopeRequest
wanted demand_id =
    let account : ScopeRequest = record { scope = "account"; scope_id = "" } in
    if is_empty demand_id
    then account ∷ []
    else record { scope = "demand"; scope_id = demand_id } ∷ account ∷ []

abbrev pub usage_event : NewUsage → PbUsageEvent
usage_event body = record {
  id = "";
  demand = if is_empty body.demand_id then none else some body.demand_id;
  thread_id = body.thread_id;
  model = body.model;
  input_tokens = body.input_tokens;
  output_tokens = body.output_tokens;
  cache_read_tokens = body.cache_read_tokens;
  cache_creation_tokens = body.cache_creation_tokens;
  cost = record { currency = body.currency; amount_micros = pos body.cost_micros };
  at = none;
}

module _ {W : Type 0} (out : Outside W) (stub : CostStub W) where
  unfoldable pub route_model : String → String → Edge W RoutingDecision
  route_model task_kind demand_id = account_scoped do
    d ← call out stub.route_model (record { task_kind = task_kind; demand_id = demand_id })
    pure (record { task_kind = d.task_kind; model = d.model; effort = d.effort; reason = d.reason })

  abbrev pub read_budget : ScopeRequest → Edge W BudgetView
  read_budget target = do b ← call out stub.get_budget target; pure (budget_view b)

  unfoldable pub get_budget : String → String → Edge W BudgetView
  get_budget scope scope_id =
      account_scoped (read_budget (record { scope = scope; scope_id = scope_id }))

  unfoldable pub set_budget : NewBudget → Edge W BudgetView
  set_budget body = account_scoped (
      require_role managers do
        b ← call out stub.set_budget (record {
          scope = body.scope;
          scope_id = body.scope_id;
          currency = "";
          limit_micros = pos body.limit_micros;
          spent_micros = pos 0;
        })
        pure (budget_view b))

  -- What follows the recording: the blown budgets are read, and only then.
  unfoldable pub outcome_of : String → RecordUsageResponse → Edge W RecordUsageOutcome
  outcome_of demand_id resp =
      if resp.budget_exceeded
      then (do
        scopes ← for_each read_budget (wanted demand_id)
        pure (record {
          recorded = resp.recorded;
          budget_exceeded = true;
          notice = overrun_notice scopes;
          budgets = scopes;
        }))
      else pure
          (record { recorded = resp.recorded; budget_exceeded = false; notice = ""; budgets = [] })

  unfoldable pub record_usage : NewUsage → String → Edge W RecordUsageOutcome
  unfolding outcome_of
  record_usage body idempotency_key = account_scoped do
    key ← idempotency out idempotency_key
    resp ← call out stub.record_usage (record { usage = usage_event body; idempotency_key = key })
    outcome_of body.demand_id resp

  unfoldable pub summarize_cost : String → String → Edge W CostSummary
  summarize_cost scope scope_id = account_scoped do
    resp ← call out stub.summarize_cost (record { scope = scope; scope_id = scope_id })
    pure (record {
      total = resp.total;
      cache_hit_ratio = resp.cache_hit_ratio;
      recent = map usage_of resp.recent;
    })
