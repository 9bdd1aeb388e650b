-- ===== src/Grpcapi/Demand.antt =====
-- app/grpcapi/demand.py: demands, their threads and their findings on the gRPC port.
pub mod Messages
pub mod Laws
use dop_api.Base.{ℕ, String, Option, none, some, List, [], ◌∷◌, map, nat_eq, string_eq}
use dop_api.Base.Table.{Table, name_of, value_of}
use dop_api.Platform.Json.{Fields}
use dop_api.Platform.Edge.{refusing, Edge, Order, ◌>>=◌, pure}
use dop_api.Coreclient.Client.{Outside}
use dop_api.Usecases.Forms.{new_demand, stage_transition, new_thread, new_message, new_finding}
use dop_api.Usecases.Demand.Messages.{DemandStub}
use dop_api.Usecases.Demand.Models.{
  Artifact, Stage, Demand, Thread, Message, Finding, DemandCockpit, NewDemand, GateDecision,
}
use dop_api.Usecases.Demand.{
  list_demands, get_demand, get_cockpit, start_demand, advance_stage, decide_gate, list_threads,
  create_thread, post_message, publish_finding,
}
use dop_api.Grpcapi.Workflow.{stage_type_enum, artifact_enum, gate_enum}
use Messages.{
  BffArtifact, BffStage, BffDemand, BffFinding, BffDemandCockpit, BffDemandPage, BffAdvanceStage,
  BffCreateThread, BffPublishFinding,
}

abbrev pub status_by_enum : Table
status_by_enum = (1, "new") ∷ (2, "doing") ∷ (3, "done") ∷ (4, "delivered") ∷ []

abbrev pub stage_by_enum : Table
stage_by_enum = (1, "pending") ∷ (2, "running") ∷ (3, "blocked") ∷ (4, "done") ∷ []

-- `_artifact`.
abbrev pub artifact_message : Artifact → BffArtifact
artifact_message a = record {
  id = a.id;
  kind = artifact_enum a.kind;
  name = a.name;
  object_ref = a.object_ref;
  version = a.version;
}

-- `_stage`; an instant is set only where there is one.
unfoldable pub stage_message : Stage → BffStage
stage_message s = record {
  key = s.key;
  name = s.name;
  type = stage_type_enum s.type;
  status = value_of stage_by_enum s.status;
  gate = gate_enum s.gate;
  artifacts = map artifact_message s.artifacts;
  started_at = s.started_at;
  finished_at = s.finished_at;
  awaiting_decision = s.awaiting_decision;
}

-- `_demand`.
unfoldable pub demand_message : Demand → BffDemand
unfolding stage_message
demand_message d = record {
  id = d.id;
  project_id = d.project_id;
  external_key = d.external_key;
  title = d.title;
  card_type = d.card_type;
  provider_status = d.provider_status;
  dop_status = value_of status_by_enum d.dop_status;
  flow_id = d.flow_id;
  flow_version = d.flow_version;
  stages = map stage_message d.stages;
  current_stage_key = d.current_stage_key;
  blocked = d.blocked;
  awaiting_decision = d.awaiting_decision;
}

-- `_finding`.
abbrev pub finding_message : Finding → BffFinding
finding_message f = record {
  id = f.id;
  thread_id = f.thread_id;
  title = f.title;
  payload = some f.payload;
}

-- The answer of `GetDemandCockpit`.
abbrev pub cockpit_message : DemandCockpit → BffDemandCockpit
cockpit_message c = record {
  demand = demand_message c.demand;
  threads = c.threads;
  findings = map finding_message c.findings;
}

-- `MessageToDict(request.payload) if request.HasField("payload") else {}`.
abbrev pub given_payload : Option Fields → Fields
given_payload none = Fields.end
given_payload (some payload) = payload

module _ {W : Type 0} (out : Outside W) (stub : DemandStub W) where
  unfoldable pub list_demands_rpc : String → ℕ → String → Edge W BffDemandPage
  list_demands_rpc project_id page_size page_token = do
    page ← list_demands out stub project_id page_size page_token
    pure (record {
      demands = map demand_message page.demands;
      next_page_token = page.next_page_token;
    })

  unfoldable pub get_demand_rpc : String → Edge W BffDemand
  get_demand_rpc id = do d ← get_demand out stub id; pure (demand_message d)

  -- The order in which the three reads end is the first argument, as in the use case.
  unfoldable pub get_cockpit_rpc : Order → String → Edge W BffDemandCockpit
  get_cockpit_rpc order demand_id = do
    c ← get_cockpit out stub order demand_id
    pure (cockpit_message c)

  unfoldable pub start_demand_rpc : NewDemand → String → Edge W BffDemand
  start_demand_rpc request key = do
    body ← refusing (new_demand request)
    d ← start_demand out stub body key
    pure (demand_message d)

  unfoldable pub advance_stage_rpc : BffAdvanceStage → Edge W BffStage
  advance_stage_rpc request = do
    body ← refusing (stage_transition (record { status = name_of stage_by_enum request.status }))
    s ← advance_stage out stub request.demand_id request.stage_key body request.idempotency_key
    pure (stage_message s)

  unfoldable pub decide_gate_rpc : String → String → GateDecision → String → Edge W BffStage
  decide_gate_rpc demand_id stage_key body key = do
    s ← decide_gate out stub demand_id stage_key body key
    pure (stage_message s)

  unfoldable pub list_threads_rpc : String → Edge W (List Thread)
  list_threads_rpc demand_id = list_threads out stub demand_id

  unfoldable pub create_thread_rpc : BffCreateThread → Edge W Thread
  create_thread_rpc request = do
    body ← refusing (new_thread (record { key = request.key; card = request.card }))
    create_thread out stub request.demand_id body request.idempotency_key

  unfoldable pub post_message_rpc : String → String → String → Edge W Message
  post_message_rpc thread_id text key = do
    body ← refusing (new_message (record { text = text }))
    post_message out stub thread_id body key "user"

  unfoldable pub publish_finding_rpc : BffPublishFinding → Edge W BffFinding
  publish_finding_rpc request = do
    body ← refusing (
        new_finding (record {
          thread_id = request.thread_id;
          title = request.title;
          payload = given_payload request.payload;
        }))
    f ← publish_finding out stub request.demand_id body request.idempotency_key
    pure (finding_message f)
