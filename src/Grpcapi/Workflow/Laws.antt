-- ===== src/Grpcapi/Workflow/Laws.antt =====
-- A flow on its way from a client of the gRPC port to the core, and back.
use dop_api.Base.{String, inl, inr, ◌≡◌, refl, ℕ, List, [], ◌∷◌, map, nat_eq, string_eq}
use dop_api.Grpcapi.Workflow.{
  BffFlow, new_flow, stage_message, flow_message, type_by_enum, artifact_by_enum, gate_by_enum,
  BffStageSpec, stage_of,
}
use dop_api.Usecases.Workflow.{flow_for_the_core, flow_of, stage_spec, stage_for_the_core}
use dop_api.Base.Table.{
  known_or, known_or_twice, name_of, value_of, value_of-back, value_of-name_or,
}
use dop_api.Usecases.Workflow.Messages.{PbStageSpec}

-- The stage as the core gets it: a type that the edge does not know is generic, a gate none, and an
-- artifact unspecified.
abbrev pub settled : BffStageSpec → BffStageSpec
settled s = record s {
  type = known_or 8 type_by_enum s.type;
  artifacts = map (known_or 0 artifact_by_enum) s.artifacts;
  gate = known_or 1 gate_by_enum s.gate;
}

artifacts_back :
    (xs : List ℕ)
    → map (value_of artifact_by_enum) (map (name_of artifact_by_enum) xs)
      ≡ map (known_or 0 artifact_by_enum) xs
artifacts_back [] = refl
artifacts_back (x ∷ xs) = cc (value_of-back artifact_by_enum x refl refl, artifacts_back xs)

-- The stage that the core is sent, by its numbers.
abbrev pub sent : BffStageSpec → PbStageSpec
sent s = record {
  key = s.key;
  name = s.name;
  type = s.type;
  artifacts = s.artifacts;
  gate = s.gate;
  subtypes = s.subtypes;
}

stage_sent : (s : BffStageSpec) → stage_for_the_core (stage_of s) ≡ sent (settled s)
stage_sent s = cc (
  value_of-name_or "generic" type_by_enum s.type refl,
  value_of-name_or "none" gate_by_enum s.gate refl,
  artifacts_back s.artifacts,
)

stages_sent :
    (xs : List BffStageSpec) → map stage_for_the_core (map stage_of xs) ≡ map sent (map settled xs)
stages_sent [] = refl
stages_sent (x ∷ xs) = cc (stage_sent x, stages_sent xs)

artifacts_kept :
    (xs : List ℕ)
    → map
        (value_of artifact_by_enum)
        (map (name_of artifact_by_enum) (map (known_or 0 artifact_by_enum) xs))
      ≡ map (known_or 0 artifact_by_enum) xs
artifacts_kept [] = refl
artifacts_kept (x ∷ xs) = cc (
  value_of-back artifact_by_enum (known_or 0 artifact_by_enum x) refl refl,
  known_or_twice 0 artifact_by_enum x (inr refl),
  artifacts_kept xs,
)

stage_kept : (s : BffStageSpec) → stage_message (stage_spec (sent (settled s))) ≡ settled s
stage_kept s = cc (
  value_of-back type_by_enum (known_or 8 type_by_enum s.type) refl refl,
  known_or_twice 8 type_by_enum s.type (inl refl),
  value_of-back gate_by_enum (known_or 1 gate_by_enum s.gate) refl refl,
  known_or_twice 1 gate_by_enum s.gate (inl refl),
  artifacts_kept s.artifacts,
)

stages_kept :
    (xs : List BffStageSpec)
    → map stage_message (map stage_spec (map sent (map settled xs))) ≡ map settled xs
stages_kept [] = refl
stages_kept (x ∷ xs) = cc (stage_kept x, stages_kept xs)

-- A flow that a client of the gRPC port writes goes to the core stage by stage, in order, with the
-- client's own numbers; only a type that the edge does not know is sent as generic, such a gate as
-- none and such an artifact as unspecified. What the core is sent reads back as exactly that.
pub flow_message-new_flow :
    (f : BffFlow) (id : String)
    → let core = flow_for_the_core (new_flow f) id in
      (core.stages ≡ map sent (map settled f.stages))
      × (flow_message (flow_of core)
          ≡ record f { id = id; version = 0; stages = map settled f.stages })
unfolding flow_message new_flow flow_of flow_for_the_core
flow_message-new_flow f id = (stages_sent f.stages, cc (stages_sent f.stages, stages_kept f.stages))
