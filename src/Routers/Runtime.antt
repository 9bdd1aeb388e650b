-- ===== src/Routers/Runtime.antt =====
-- app/routers/runtime.py: each route is its use case.
use dop_api.Base.{String, nat_eq, string_eq}
use dop_api.Platform.Edge.{Edge}
use dop_api.Coreclient.Client.{Outside}
use dop_api.Usecases.Runtime.Models.{RunTurn, TurnOutcome, AgentStub}
use dop_api.Usecases.Runtime

module _ {W : Type 0} (out : Outside W) (stub : AgentStub W) where
  unfoldable pub run_turn : String → String → RunTurn → String → Edge W TurnOutcome
  run_turn demand_id thread_id body idempotency_key =
      Runtime.run_turn out stub demand_id thread_id body idempotency_key
