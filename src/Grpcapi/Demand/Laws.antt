-- ===== src/Grpcapi/Demand/Laws.antt =====
-- What a client of the gRPC port sees of a demand.
use dop_api.Base.{
  sym, ap, ◌∙◌, ◌||◌, ◌&&◌, any, ◌==◌, arith, Bool, ◌≡◌, refl, List, [], ◌∷◌, map, nat_eq,
  string_eq,
}
use dop_api.Grpcapi.Demand.{
  status_by_enum, demand_message, stage_by_enum, artifact_message, stage_message,
}
use dop_api.Usecases.Demand.Models.{Stage}
use dop_api.Usecases.Demand.Messages.{PbDemand, PbArtifact, PbDemandStage}
use dop_api.Usecases.Demand.Views.{demand_of, artifact_of, stage_of, awaits_decision}
use dop_api.Base.Table.{name_of-beq, known_or, value_of-back}
use dop_api.Grpcapi.Workflow.{type_by_enum, artifact_by_enum, gate_by_enum}
use dop_api.Grpcapi.Demand.Messages.{BffArtifact, BffStage}

-- An artifact and a stage of the core, by the core's own numbers where the edge knows them.
abbrev pub relayed_artifact : PbArtifact → BffArtifact
relayed_artifact a = record {
  id = a.id;
  kind = known_or 0 artifact_by_enum a.kind;
  name = a.name;
  object_ref = a.object_ref;
  version = a.version;
}

abbrev pub relayed : PbDemandStage → BffStage
relayed s = record {
  key = s.key;
  name = s.name;
  type = known_or 0 type_by_enum s.type;
  status = known_or 0 stage_by_enum s.status;
  gate = known_or 0 gate_by_enum s.gate;
  artifacts = map relayed_artifact s.artifacts;
  started_at = s.started_at;
  finished_at = s.finished_at;
  awaiting_decision = awaits_decision s;
}

artifacts_relayed :
    (xs : List PbArtifact) → map artifact_message (map artifact_of xs) ≡ map relayed_artifact xs
artifacts_relayed [] = refl
artifacts_relayed (a ∷ xs) =
    cc (value_of-back artifact_by_enum a.kind refl refl, artifacts_relayed xs)

stage_relayed : (s : PbDemandStage) → stage_message (stage_of s) ≡ relayed s
unfolding stage_message
stage_relayed s = cc (
  value_of-back type_by_enum s.type refl refl,
  value_of-back stage_by_enum s.status refl refl,
  value_of-back gate_by_enum s.gate refl refl,
  artifacts_relayed s.artifacts,
)

stages_relayed : (xs : List PbDemandStage) → map stage_message (map stage_of xs) ≡ map relayed xs
stages_relayed [] = refl
stages_relayed (s ∷ xs) = cc (stage_relayed s, stages_relayed xs)

-- The flags of a demand, read from the numbers of the message itself.
abbrev pub is_blocked : BffStage → Bool
is_blocked s = s.status == 3

abbrev pub waits_for_human : BffStage → Bool
waits_for_human s = s.gate == 2 && (s.status == 2 || s.status == 3)

any-relayed :
    (p : Stage → Bool) (q : BffStage → Bool)
    → ((s : PbDemandStage) → p (stage_of s) ≡ q (relayed s))
    → (ss : List PbDemandStage) → any p (map stage_of ss) ≡ any q (map relayed ss)
any-relayed p q same [] = refl
any-relayed p q same (s ∷ ss) = ground (arith, same s, any-relayed p q same ss)

blocked_relayed : (s : PbDemandStage) → ((stage_of s).status == "blocked") ≡ is_blocked (relayed s)
blocked_relayed s = ground (arith, name_of-beq stage_by_enum s.status "blocked" refl refl refl)

awaits_relayed : (s : PbDemandStage) → (stage_of s).awaiting_decision ≡ waits_for_human (relayed s)
awaits_relayed s = ground arith

-- The message of a demand shows each stage of the core, in order, with the core's own numbers, and
-- none for a number that the edge does not know. Its flags agree with those numbers: it is blocked
-- exactly if some stage is, and awaits a decision exactly if some stage with a human gate is running
-- or blocked.
pub demand_message-demand_of :
    (d : PbDemand)
    → let m = demand_message (demand_of d) in
      (m.dop_status ≡ known_or 0 status_by_enum d.dop_status)
      × (m.stages ≡ map relayed d.stages)
      × (m.blocked ≡ any is_blocked m.stages)
      × (m.awaiting_decision ≡ any waits_for_human m.stages)
unfolding demand_message demand_of
demand_message-demand_of d =
    let stages = stages_relayed d.stages in
    (
      value_of-back status_by_enum d.dop_status refl refl,
      stages,
      any-relayed (λ (e : Stage). e.status == "blocked") is_blocked blocked_relayed d.stages
          ∙ ap (any is_blocked) (sym stages),
      any-relayed (λ (e : Stage). e.awaiting_decision) waits_for_human awaits_relayed d.stages
          ∙ ap (any waits_for_human) (sym stages),
    )
