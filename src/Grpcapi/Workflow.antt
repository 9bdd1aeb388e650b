-- ===== src/Grpcapi/Workflow.antt =====
-- app/grpcapi/workflow.py: flows on the gRPC port, and the vocabulary of a stage on the side of the
-- edge's own contract, app/grpcapi/gen/dop/bff/v1/workflow_pb2.pyi.
pub mod Laws
use dop_api.Base.{ℕ, String, Option, none, some, List, [], ◌∷◌, map, nat_eq, string_eq}
use dop_api.Base.Table.{Table, name_of, name_or, value_of}
use dop_api.Platform.Edge.{refusing, Edge, ◌>>=◌, pure}
use dop_api.Coreclient.Client.{Outside}
use dop_api.Usecases.Forms.{valid_flow, promotion_target}
use dop_api.Usecases.Workflow.Messages.{WorkflowStub}
use dop_api.Usecases.Workflow.{
  StageSpec, Flow, NewFlow, PromotionTarget, Provenance, EffectiveFlow, ValidationReport,
  list_flows, get_flow, resolve_flow, create_flow, update_flow, validate_flow, promote_flow,
}

abbrev pub type_by_enum : Table
type_by_enum =
    (1, "context")
    ∷ (2, "spec")
    ∷ (3, "plan")
    ∷ (4, "implementation")
    ∷ (5, "test")
    ∷ (6, "human_validation")
    ∷ (7, "finalization")
    ∷ (8, "generic")
    ∷ []

abbrev pub artifact_by_enum : Table
artifact_by_enum =
    (1, "document")
    ∷ (2, "spec")
    ∷ (3, "plan")
    ∷ (4, "test_plan")
    ∷ (5, "diagram")
    ∷ (6, "report")
    ∷ []

abbrev pub gate_by_enum : Table
gate_by_enum = (1, "none") ∷ (2, "human") ∷ []

abbrev pub stage_type_enum : String → ℕ
stage_type_enum = value_of type_by_enum

abbrev pub artifact_enum : String → ℕ
artifact_enum = value_of artifact_by_enum

abbrev pub gate_enum : String → ℕ
gate_enum = value_of gate_by_enum

-- `StageSpec`.
pub record BffStageSpec : Type 0 where
  pub key : String
  pub name : String
  pub type : ℕ
  pub artifacts : List ℕ
  pub gate : ℕ
  pub subtypes : List String

-- `Flow`.
pub record BffFlow : Type 0 where
  pub id : String
  pub name : String
  pub description : String
  pub version : ℕ
  pub owner_scope : String
  pub owner_id : String
  pub stages : List BffStageSpec

-- `EffectiveFlow`; a provenance has the fields of the use case's.
pub record BffEffectiveFlow : Type 0 where
  pub flow : Option BffFlow
  pub provenance : Provenance

-- `_stage_spec`.
abbrev pub stage_message : StageSpec → BffStageSpec
stage_message s = record {
  key = s.key;
  name = s.name;
  type = stage_type_enum s.type;
  artifacts = map artifact_enum s.artifacts;
  gate = gate_enum s.gate;
  subtypes = s.subtypes;
}

-- `_flow`.
unfoldable pub flow_message : Flow → BffFlow
flow_message f = record {
  id = f.id;
  name = f.name;
  description = f.description;
  version = f.version;
  owner_scope = f.owner_scope;
  owner_id = f.owner_id;
  stages = map stage_message f.stages;
}

-- One stage of `_new_flow`.
abbrev pub stage_of : BffStageSpec → StageSpec
stage_of s = record {
  key = s.key;
  name = s.name;
  type = name_or "generic" type_by_enum s.type;
  artifacts = map (name_of artifact_by_enum) s.artifacts;
  gate = name_or "none" gate_by_enum s.gate;
  subtypes = s.subtypes;
}

-- `_new_flow`.
unfoldable pub new_flow : BffFlow → NewFlow
new_flow f = record {
  name = f.name;
  description = f.description;
  owner_scope = f.owner_scope;
  owner_id = f.owner_id;
  stages = map stage_of f.stages;
}

-- The answer of `ResolveFlow`.
abbrev pub effective_message : EffectiveFlow → BffEffectiveFlow
effective_message eff = record {
  flow = elim eff.flow [ none ↦ none | some f ↦ some (flow_message f) ];
  provenance = eff.provenance;
}

module _ {W : Type 0} (out : Outside W) (stub : WorkflowStub W) where
  unfoldable pub list_flows_rpc : String → String → Edge W (List BffFlow)
  list_flows_rpc owner_scope owner_id = do
    fs ← list_flows out stub owner_scope owner_id
    pure (map flow_message fs)

  unfoldable pub get_flow_rpc : String → Edge W BffFlow
  get_flow_rpc id = do f ← get_flow out stub id; pure (flow_message f)

  unfoldable pub create_flow_rpc : BffFlow → String → Edge W BffFlow
  create_flow_rpc flow key = do
    body ← refusing (valid_flow (new_flow flow))
    f ← create_flow out stub body key
    pure (flow_message f)

  unfoldable pub update_flow_rpc : String → BffFlow → Edge W BffFlow
  update_flow_rpc id flow = do
    body ← refusing (valid_flow (new_flow flow))
    f ← update_flow out stub id body
    pure (flow_message f)

  unfoldable pub validate_flow_rpc : BffFlow → Edge W ValidationReport
  validate_flow_rpc flow = do
    body ← refusing (valid_flow (new_flow flow))
    validate_flow out stub body

  unfoldable pub resolve_flow_rpc : String → String → Edge W BffEffectiveFlow
  resolve_flow_rpc scope scope_id = do
    eff ← resolve_flow out stub scope scope_id
    pure (effective_message eff)

  unfoldable pub promote_flow_rpc : String → PromotionTarget → Edge W BffFlow
  promote_flow_rpc flow_id target = do
    body ← refusing (promotion_target target)
    f ← promote_flow out stub flow_id body
    pure (flow_message f)
