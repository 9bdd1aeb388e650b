-- ===== src/Tests/Ports.antt =====
-- The theorems about what the gRPC port passes on, at concrete messages.
use dop_api.Base.{◌≡◌, ◌⊎◌, ℕ, none, some, [], ◌∷◌, refl, nat_eq, string_eq, any}
use dop_api.Platform.Errors.{Error, done, raised}
use dop_api.Usecases.Workflow.{flow_of, flow_for_the_core}
use dop_api.Usecases.Demand.Messages.{PbDemandStage, PbDemand}
use dop_api.Usecases.Demand.Views.{demand_of}
use dop_api.Grpcapi.Workflow.{BffStageSpec, BffFlow, flow_message, new_flow}
use dop_api.Grpcapi.Workflow.Laws.{sent, flow_message-new_flow}
use dop_api.Grpcapi.Demand.{demand_message}
use dop_api.Grpcapi.Demand.Laws.{relayed, is_blocked, waits_for_human, demand_message-demand_of}
use dop_api.Grpcapi.Delivery.{enqueue_merge_rpc}
use dop_api.Routers.Delivery.{Content, enqueue_merge}
use dop_api.Routers.Delivery.Laws.{as_message, status_of, enqueue_merge_ports}
use dop_api.Tests.World.{outside, scope_of}
use dop_api.Tests.Delivery.{delivery_stub}

abbrev new_stage : BffStageSpec
new_stage = record {
  key = "k";
  name = "";
  type = 99;
  artifacts = 2 ∷ 70 ∷ [];
  gate = 2;
  subtypes = [];
}

abbrev flow : BffFlow
flow = record {
  id = "";
  name = "main";
  description = "";
  version = 3;
  owner_scope = "account";
  owner_id = "acc";
  stages = new_stage ∷ [];
}

abbrev kept_stage : BffStageSpec
kept_stage = record new_stage { type = 8; artifacts = 2 ∷ 0 ∷ [] }

flow_message-new_flow_example :
    ((flow_for_the_core (new_flow flow) "f1").stages ≡ sent kept_stage ∷ [])
    × (flow_message (flow_of (flow_for_the_core (new_flow flow) "f1"))
        ≡ record flow { id = "f1"; version = 0; stages = kept_stage ∷ [] })
flow_message-new_flow_example = flow_message-new_flow flow "f1"

abbrev stage : PbDemandStage
stage = record {
  key = "spec";
  name = "Spec";
  type = 2;
  status = 3;
  gate = 2;
  artifacts = [];
  started_at = some 5;
  finished_at = none;
}

abbrev demand : PbDemand
demand = record {
  id = "d1";
  project_id = "p1";
  external_key = "K-1";
  title = "T";
  card_type = "";
  provider_status = "";
  dop_status = 9;
  flow_id = "f1";
  flow_version = 1;
  stages = stage ∷ [];
}

demand_message-demand_of_example :
    ((demand_message (demand_of demand)).dop_status ≡ 0)
    × ((demand_message (demand_of demand)).stages ≡ relayed stage ∷ [])
    × ((demand_message (demand_of demand)).blocked
        ≡ any is_blocked (demand_message (demand_of demand)).stages)
    × ((demand_message (demand_of demand)).awaiting_decision
        ≡ any waits_for_human (demand_message (demand_of demand)).stages)
demand_message-demand_of_example = demand_message-demand_of demand

enqueue_merge_ports_example :
    ((c : Content) × (n : ℕ) × (enqueue_merge outside delivery_stub "r1"
          (record { demand_id = "d1" })
          ""
          (scope_of "developer")
          0
        ≡ (done (record { status_code = status_of c; content = c }), n))
      × (enqueue_merge_rpc outside delivery_stub "r1" "d1" "" (scope_of "developer") 0
          ≡ (done (as_message c), n)))
    ⊎ ((e : Error) × (n : ℕ) × (enqueue_merge outside delivery_stub "r1"
            (record { demand_id = "d1" })
            ""
            (scope_of "developer")
            0
          ≡ (raised e, n))
        × (enqueue_merge_rpc outside delivery_stub "r1" "d1" "" (scope_of "developer") 0
            ≡ (raised e, n)))
enqueue_merge_ports_example =
    enqueue_merge_ports outside delivery_stub (scope_of "developer") 0 "r1" "d1" "" refl
