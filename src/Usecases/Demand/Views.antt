-- ===== src/Usecases/Demand/Views.antt =====
-- app/usecases/demand.py: the vocabularies, and how a message of the core becomes a model of the edge.
use dop_api.Base.{
  ℕ, String, Bool, Option, none, some, [], ◌∷◌, map, not, ◌&&◌, ◌||◌, ◌==◌, nat_eq, string_eq, any,
  find_first, or_else, is_empty, if◌then◌else◌,
}
use dop_api.Base.Table.{Table, name_of, value_of}
use dop_api.Platform.Json.{Fields, end}
use dop_api.Platform.Context.{AuthContext}
use dop_api.Coreclient.Client.{Caller, nobody}
use dop_api.Usecases.Workflow.{artifact_name, gate_name, stage_type_name}
use dop_api.Usecases.Demand.Messages.{
  PbArtifact, PbDemandStage, PbDemand, PbAgentCard, PbThread, PbMessage, PbFinding,
}
use dop_api.Usecases.Demand.Models.{Artifact, Stage, Demand, AgentCard, Thread, Message, Finding}

abbrev pub status_by_enum : Table
status_by_enum = (1, "new") ∷ (2, "doing") ∷ (3, "done") ∷ (4, "delivered") ∷ []

abbrev pub stage_by_enum : Table
stage_by_enum = (1, "pending") ∷ (2, "running") ∷ (3, "blocked") ∷ (4, "done") ∷ []

abbrev pub actor_by_enum : Table
actor_by_enum = (1, "user") ∷ (2, "agent") ∷ (3, "subagent") ∷ (4, "system") ∷ []

abbrev pub stage_status_value : String → ℕ
stage_status_value = value_of stage_by_enum

-- `s.status in _OPEN_STAGES`.
abbrev pub is_open_stage : ℕ → Bool
is_open_stage status = status == 2 || status == 3

-- `_awaits_decision`.
abbrev pub awaits_decision : PbDemandStage → Bool
awaits_decision s = s.gate == 2 && is_open_stage s.status

-- `_artifact`.
abbrev pub artifact_of : PbArtifact → Artifact
artifact_of a = record {
  id = a.id;
  kind = artifact_name a.kind;
  name = a.name;
  object_ref = a.object_ref;
  version = a.version;
}

-- `_stage`.
abbrev pub stage_of : PbDemandStage → Stage
stage_of s = record {
  key = s.key;
  name = s.name;
  type = stage_type_name s.type;
  status = name_of stage_by_enum s.status;
  gate = gate_name s.gate;
  artifacts = map artifact_of s.artifacts;
  started_at = s.started_at;
  finished_at = s.finished_at;
  awaiting_decision = awaits_decision s;
}

abbrev pub key_of : Option Stage → String
key_of none = ""
key_of (some e) = e.key

-- `_demand`.
unfoldable pub demand_of : PbDemand → Demand
demand_of d =
    let stages = map stage_of d.stages in
    record {
      id = d.id;
      project_id = d.project_id;
      external_key = d.external_key;
      title = d.title;
      card_type = d.card_type;
      provider_status = d.provider_status;
      dop_status = name_of status_by_enum d.dop_status;
      flow_id = d.flow_id;
      flow_version = d.flow_version;
      stages = stages;
      current_stage_key = key_of (find_first (λ (e : Stage). not (e.status == "done")) stages);
      blocked = any (λ (e : Stage). e.status == "blocked") stages;
      awaiting_decision = any (λ (e : Stage). e.awaiting_decision) stages;
    }

abbrev pub card_of : PbAgentCard → AgentCard
card_of c = record {
  purpose = c.purpose;
  tools = c.tools;
  model = c.model;
  effort = c.effort;
  budget_micros = c.budget_micros;
}

abbrev pub optional_card : Option PbAgentCard → Option AgentCard
optional_card none = none
optional_card (some c) = some (card_of c)

-- `_thread`.
abbrev pub thread_of : PbThread → Thread
thread_of t = record { id = t.id; key = t.key; blocked = t.blocked; card = optional_card t.card }

-- `_message`.
abbrev pub message_of : PbMessage → Message
message_of m = record {
  id = m.id;
  thread_id = m.thread_id;
  author_kind = name_of actor_by_enum m.author_kind;
  author_id = m.author_id;
  author_name = m.author_name;
  text = m.text;
  at = m.at;
}

abbrev pub payload_of : Option Fields → Fields
payload_of none = end
payload_of (some fields) = fields

-- `_finding`.
abbrev pub finding_of : PbFinding → Finding
finding_of f = record {
  id = f.id;
  thread_id = f.thread_id;
  title = f.title;
  payload = payload_of f.payload;
}

abbrev pub pb_card : Option AgentCard → Option PbAgentCard
pb_card none = none
pb_card (some c) = some (record {
  purpose = c.purpose;
  tools = c.tools;
  model = c.model;
  effort = c.effort;
  budget_micros = c.budget_micros;
})

-- The optional project filter: it is set only if there is one.
abbrev pub optional_id : String → Option String
optional_id id = if is_empty id then none else some id

-- The caller of `post_message`'s metadata.
abbrev pub author_of : AuthContext → String → Caller
author_of ctx actor_kind = record nobody {
  user_id = ctx.user_id;
  account_id = ctx.account_id;
  actor_name = or_else ctx.principal.name ctx.principal.email;
  actor_kind = actor_kind;
}
