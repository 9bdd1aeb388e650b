-- ===== src/Usecases/Workflow.antt =====
-- app/usecases/workflow.py: flows, their vocabulary and where they come from.
pub mod Messages
pub mod Laws
use dop_api.Base.{ℕ, String, Bool, Option, none, some, List, [], ◌∷◌, map, length, ltb, strip}
use dop_api.Base.Table.{Table, name_of, value_of}
use dop_api.Platform.Edge.{Edge, ◌>>=◌, pure}
use dop_api.Platform.Decorator.{account_scoped, require_role, managers, writers}
use dop_api.Coreclient.Client.{Outside, call, idempotency}
use Messages.{PbStageSpec, PbFlow, PbEffectiveFlow, WorkflowStub}

abbrev pub type_by_enum : Table
type_by_enum =
    (1, "context")
    ∷ (2, "spec")
    ∷ (3, "plan")
    ∷ (4, "implementation")
    ∷ (5, "test")
    ∷ (6, "human_validation")
    ∷ (7, "finalization")
    ∷ (8, "generic")
    ∷ []

abbrev pub artifact_by_enum : Table
artifact_by_enum =
    (1, "document")
    ∷ (2, "spec")
    ∷ (3, "plan")
    ∷ (4, "test_plan")
    ∷ (5, "diagram")
    ∷ (6, "report")
    ∷ []

abbrev pub gate_by_enum : Table
gate_by_enum = (1, "none") ∷ (2, "human") ∷ []

abbrev pub stage_type_name : ℕ → String
stage_type_name = name_of type_by_enum

abbrev pub stage_type_value : String → ℕ
stage_type_value = value_of type_by_enum

abbrev pub artifact_name : ℕ → String
artifact_name = name_of artifact_by_enum

abbrev pub artifact_value : String → ℕ
artifact_value = value_of artifact_by_enum

abbrev pub gate_name : ℕ → String
gate_name = name_of gate_by_enum

abbrev pub gate_value : String → ℕ
gate_value = value_of gate_by_enum

pub record StageSpec : Type 0 where
  pub key : String
  pub name : String
  pub type : String
  pub artifacts : List String
  pub gate : String
  pub subtypes : List String

pub record Flow : Type 0 where
  pub id : String
  pub name : String
  pub description : String
  pub version : ℕ
  pub owner_scope : String
  pub owner_id : String
  pub stages : List StageSpec

pub record NewFlow : Type 0 where
  pub name : String
  pub description : String
  pub owner_scope : String
  pub owner_id : String
  pub stages : List StageSpec

pub record PromotionTarget : Type 0 where
  pub target_scope : String
  pub target_id : String

pub record StageOrigin : Type 0 where
  pub stage_key : String
  pub scope : String

pub record Provenance : Type 0 where
  pub contributors : List String
  pub origins : List StageOrigin
  pub sentence : String
  pub truncated : Bool

pub record EffectiveFlow : Type 0 where
  pub flow : Option Flow
  pub provenance : Provenance

pub record ValidationReport : Type 0 where
  pub valid : Bool
  pub errors : List String
  pub warnings : List String

-- `_stage_spec`.
abbrev pub stage_spec : PbStageSpec → StageSpec
stage_spec s = record {
  key = s.key;
  name = s.name;
  type = stage_type_name s.type;
  artifacts = map artifact_name s.artifacts;
  gate = gate_name s.gate;
  subtypes = s.subtypes;
}

-- `_flow`.
unfoldable pub flow_of : PbFlow → Flow
flow_of f = record {
  id = f.id;
  name = f.name;
  description = f.description;
  version = f.version;
  owner_scope = f.owner_scope;
  owner_id = f.owner_id;
  stages = map stage_spec f.stages;
}

-- One stage of `_flow_for_the_core`.
abbrev pub stage_for_the_core : StageSpec → PbStageSpec
stage_for_the_core s = record {
  key = s.key;
  name = s.name;
  type = stage_type_value s.type;
  artifacts = map artifact_value s.artifacts;
  gate = gate_value s.gate;
  subtypes = s.subtypes;
}

unfoldable pub flow_for_the_core : NewFlow → String → PbFlow
flow_for_the_core body flow_id = record {
  id = flow_id;
  name = body.name;
  description = body.description;
  version = 0;
  owner_scope = body.owner_scope;
  owner_id = body.owner_id;
  stages = map stage_for_the_core body.stages;
}

abbrev pub stage_count : Option PbFlow → ℕ
stage_count none = 0
stage_count (some f) = length f.stages

abbrev pub origin_of : String × String → StageOrigin
origin_of (key, scope) = record { stage_key = key; scope = scope }

-- `_provenance`.
pub provenance : PbEffectiveFlow → Provenance
provenance eff =
    let origins = map origin_of eff.origins in
    record {
      contributors = eff.contributors;
      origins = origins;
      sentence = strip eff.resolved_from;
      truncated = ltb (length origins) (stage_count eff.flow);
    }

abbrev pub optional_flow : Option PbFlow → Option Flow
optional_flow none = none
optional_flow (some f) = some (flow_of f)

module _ {W : Type 0} (out : Outside W) (stub : WorkflowStub W) where
  unfoldable pub list_flows : String → String → Edge W (List Flow)
  list_flows owner_scope owner_id = account_scoped do
    flows ← call out stub.list_flows (record { owner_scope = owner_scope; owner_id = owner_id })
    pure (map flow_of flows)

  unfoldable pub get_flow : String → Edge W Flow
  get_flow flow_id = account_scoped do f ← call out stub.get_flow flow_id; pure (flow_of f)

  unfoldable pub resolve_flow : String → String → Edge W EffectiveFlow
  resolve_flow scope scope_id = account_scoped do
    eff ← call out stub.resolve_flow (record { scope = scope; scope_id = scope_id })
    pure (record { flow = optional_flow eff.flow; provenance = provenance eff })

  pub create_flow : NewFlow → String → Edge W Flow
  create_flow body idempotency_key = account_scoped (
      require_role writers do
        key ← idempotency out idempotency_key
        f ←
            call out stub.create_flow
              (record { flow = flow_for_the_core body ""; idempotency_key = key })
        pure (flow_of f))

  pub update_flow : String → NewFlow → Edge W Flow
  update_flow flow_id body = account_scoped (
      require_role writers
        do f ← call out stub.update_flow (flow_for_the_core body flow_id); pure (flow_of f))

  unfoldable pub validate_flow : NewFlow → Edge W ValidationReport
  validate_flow body = account_scoped do
    r ← call out stub.validate_flow (flow_for_the_core body "")
    pure (record { valid = r.valid; errors = r.errors; warnings = r.warnings })

  pub promote_flow : String → PromotionTarget → Edge W Flow
  promote_flow flow_id body = account_scoped (
      require_role managers do
        f ← call out stub.promote_flow (record {
          flow_id = flow_id;
          target_scope = body.target_scope;
          target_id = body.target_id;
        })
        pure (flow_of f))
