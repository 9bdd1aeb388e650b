-- ===== src/Routers/Demand.antt =====
-- app/routers/demand.py: each route is its use case.
use dop_api.Base.{ℕ, String, List, nat_eq, string_eq}
use dop_api.Platform.Edge.{Edge, Order}
use dop_api.Coreclient.Client.{Outside}
use dop_api.Usecases.Demand.Messages.{DemandStub}
use dop_api.Usecases.Demand.Models.{
  Stage, Demand, DemandPage, Thread, Message, Finding, DemandCockpit, NewDemand, StageTransition,
  GateDecision, NewThread, NewMessage, NewFinding,
}
use dop_api.Usecases.Demand

module _ {W : Type 0} (out : Outside W) (stub : DemandStub W) where
  unfoldable pub list_demands : String → ℕ → String → Edge W DemandPage
  list_demands project_id page_size page_token =
      Demand.list_demands out stub project_id page_size page_token

  unfoldable pub start_demand : NewDemand → String → Edge W Demand
  start_demand body idempotency_key = Demand.start_demand out stub body idempotency_key

  unfoldable pub get_demand : String → Edge W Demand
  get_demand demand_id = Demand.get_demand out stub demand_id

  unfoldable pub get_cockpit : Order → String → Edge W DemandCockpit
  get_cockpit order demand_id = Demand.get_cockpit out stub order demand_id

  unfoldable pub advance_stage : String → String → StageTransition → String → Edge W Stage
  advance_stage demand_id stage_key body idempotency_key =
      Demand.advance_stage out stub demand_id stage_key body idempotency_key

  unfoldable pub decide_gate : String → String → GateDecision → String → Edge W Stage
  decide_gate demand_id stage_key body idempotency_key =
      Demand.decide_gate out stub demand_id stage_key body idempotency_key

  unfoldable pub list_threads : String → Edge W (List Thread)
  list_threads demand_id = Demand.list_threads out stub demand_id

  unfoldable pub create_thread : String → NewThread → String → Edge W Thread
  create_thread demand_id body idempotency_key =
      Demand.create_thread out stub demand_id body idempotency_key

  unfoldable pub publish_finding : String → NewFinding → String → Edge W Finding
  publish_finding demand_id body idempotency_key =
      Demand.publish_finding out stub demand_id body idempotency_key

  unfoldable pub post_message : String → NewMessage → String → String → Edge W Message
  post_message thread_id body idempotency_key =
      Demand.post_message out stub thread_id body idempotency_key
