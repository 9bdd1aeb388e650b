-- ===== src/Tests/Demand.antt =====
-- The theorems about demands at concrete inputs.
use dop_api.Coreclient.Client.{
  idempotency, assertion_entry, request_id, metadata, metadata_for, call,
}
use dop_api.Platform.Decorator.{ctx_or_401, wrap, require_role, account_scoped}
use dop_api.Base.{refl, ◌≡◌, ◌⊎◌, ℕ, String, true, none, [], ◌∷◌, nat_eq, string_eq, All}
use dop_api.Platform.Edge.{bca, gather, settle, first_in}
use dop_api.Usecases.Demand.Views.{demand_of}
use dop_api.Usecases.Demand.{
  post_message, post_as, get_cockpit, get_demand, list_threads, list_findings,
}
use dop_api.Usecases.Demand.Models.{Message, DemandCockpit, NewMessage}
use dop_api.Usecases.Demand.Messages.{PbDemandStage, PbDemand, PbMessage, DemandStub}
use dop_api.Usecases.Demand.Laws.Progress.{IsAt, is_done, demand_of-IsAt}
use dop_api.Usecases.Demand.Laws.Writes.{IsPosted, post_message-IsPosted}
use dop_api.Usecases.Demand.Laws.Cockpit.{Answered, get_cockpit-Answered}
use dop_api.Tests.World.{outside, scope_of, context_of, unused, answering}

abbrev stage_at : String → ℕ → PbDemandStage
stage_at key status = record {
  key = key;
  name = key;
  type = 4;
  status = status;
  gate = 2;
  artifacts = [];
  started_at = none;
  finished_at = none;
}

abbrev pb_demand : PbDemand
pb_demand = record {
  id = "d1";
  project_id = "p1";
  external_key = "DOP-1";
  title = "A demand";
  card_type = "story";
  provider_status = "Doing";
  dop_status = 2;
  flow_id = "f1";
  flow_version = 1;
  stages = stage_at "plan" 4 ∷ stage_at "build" 3 ∷ stage_at "test" 1 ∷ [];
}

demand_of-IsAt_example :
    IsAt pb_demand.stages "build"
    ⊎ (All (λ s. is_done s ≡ true) pb_demand.stages
        × ((demand_of pb_demand).current_stage_key ≡ ""))
unfolding demand_of
demand_of-IsAt_example = demand_of-IsAt pb_demand

abbrev pb_message : PbMessage
pb_message = record {
  id = "m1";
  thread_id = "t1";
  author_kind = 1;
  author_id = "u1";
  author_name = "Ana";
  text = "hello";
  at = none;
}

abbrev demand_stub : DemandStub ℕ
demand_stub = record {
  list_demands = unused;
  get_demand = answering pb_demand;
  list_threads = answering [];
  list_findings = answering [];
  start_demand = unused;
  advance_stage = unused;
  decide_gate = unused;
  create_thread = unused;
  post_message = answering pb_message;
  publish_finding = unused;
}

abbrev posted : Message
posted = record {
  id = "m1";
  thread_id = "t1";
  author_kind = "user";
  author_id = "u1";
  author_name = "Ana";
  text = "hello";
  at = none;
}

abbrev hello : NewMessage
hello = record { text = "hello" }

post_message-IsPosted_example :
    IsPosted outside demand_stub
      (scope_of "developer")
      0
      (context_of "developer")
      "t1"
      "hello"
      "user"
      2
unfolding post_message post_as account_scoped require_role wrap ctx_or_401 metadata_for request_id
    assertion_entry idempotency
post_message-IsPosted_example =
    post_message-IsPosted outside demand_stub (scope_of "developer") 0 (context_of "developer") "t1"
      "" "user" hello posted 2 refl refl refl refl

abbrev cockpit : DemandCockpit
cockpit = record { demand = demand_of pb_demand; threads = []; findings = [] }

get_cockpit-Answered_example :
    Answered (get_demand outside demand_stub "d1") (scope_of "viewer") (demand_of pb_demand)
    × Answered (list_threads outside demand_stub "d1") (scope_of "viewer") []
    × Answered (list_findings outside demand_stub "d1" "") (scope_of "viewer") []
unfolding get_cockpit gather settle first_in get_demand list_threads list_findings account_scoped
    wrap ctx_or_401 call metadata metadata_for request_id assertion_entry
get_cockpit-Answered_example =
    get_cockpit-Answered outside demand_stub (scope_of "viewer") 0 bca "d1" cockpit 3 refl
