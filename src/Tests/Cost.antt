-- ===== src/Tests/Cost.antt =====
-- The theorems about budgets and consumption at concrete inputs.
use dop_api.Coreclient.Client.{
  idempotency, assertion_entry, request_id, metadata_for, metadata, call,
}
use dop_api.Platform.Decorator.{ctx_or_401, wrap, account_scoped}
use dop_api.Platform.Edge.{for_each}
use dop_api.Base.{some, ◌∷◌, refl, ℕ, true, [], nat_eq, string_eq}
use dop_api.Base.Int.{pos}
use dop_api.Usecases.Cost.{overrun_notice, budget_view, outcome_of, record_usage}
use dop_api.Usecases.Cost.Models.{BudgetView, PbBudget, NewUsage, RecordUsageOutcome, CostStub}
use dop_api.Usecases.Cost.Recorded.{IsRecorded, record_usage-IsRecorded}
use dop_api.Tests.World.{outside, scope_of, unused, answering}

abbrev budget : PbBudget
budget = record {
  scope = "demand";
  scope_id = "d1";
  currency = "USD";
  limit_micros = pos 1000;
  spent_micros = pos 1500;
}

abbrev cost_stub : CostStub ℕ
cost_stub = record {
  route_model = unused;
  get_budget = answering budget;
  set_budget = unused;
  record_usage = answering (record { recorded = true; budget_exceeded = true });
  summarize_cost = unused;
}

abbrev usage : NewUsage
usage = record {
  model = "opus";
  demand_id = "d1";
  thread_id = "t1";
  input_tokens = 10;
  output_tokens = 5;
  cache_read_tokens = 0;
  cache_creation_tokens = 0;
  cost_micros = 100;
  currency = "USD";
}

abbrev blown : BudgetView
blown = record {
  scope = "demand";
  scope_id = "d1";
  limit = record { currency = "USD"; amount_micros = pos 1000 };
  spent = record { currency = "USD"; amount_micros = pos 1500 };
  remaining = some (record { currency = "USD"; amount_micros = pos 0 });
}

abbrev overrun : RecordUsageOutcome
overrun = record {
  recorded = true;
  budget_exceeded = true;
  notice = overrun_notice (blown ∷ blown ∷ []);
  budgets = blown ∷ blown ∷ [];
}

record_usage-IsRecorded_example : IsRecorded outside cost_stub (scope_of "viewer") 0 usage overrun 3
unfolding record_usage outcome_of account_scoped wrap ctx_or_401 call metadata metadata_for
    request_id assertion_entry idempotency for_each budget_view
record_usage-IsRecorded_example =
    record_usage-IsRecorded outside cost_stub (scope_of "viewer") 0 usage "k" overrun 3 refl
