-- ===== src/Usecases/Workflow/Laws.antt =====
-- The translation of flows loses nothing, and who may change them.
use dop_api.Base.{
  eq_iff, Bool-cases, ◌⊎◌, inl, inr, false, ◌<◌, String, true, some, List, [], ◌∷◌, map, ◌≡◌, ◌↔◌,
  refl, All, is_empty, is_in, length, arith, length-map,
}
use dop_api.Base.Table.{name_of, value_of, names, name_of-value_of}
use dop_api.Platform.Context.{Scope, AuthContext, has_role}
use dop_api.Platform.Errors.{refuse}
use dop_api.Platform.Decorator.{managers, writers}
use dop_api.Platform.Decorator.Laws.{role_missing}
use dop_api.Coreclient.Client.{Outside}
use dop_api.Usecases.Workflow.{
  origin_of, StageSpec, NewFlow, PromotionTarget, type_by_enum, artifact_by_enum, gate_by_enum,
  stage_spec, flow_of, stage_for_the_core, flow_for_the_core, provenance, stage_count, create_flow,
  update_flow, promote_flow,
}
use dop_api.Usecases.Workflow.Messages.{PbEffectiveFlow, WorkflowStub}

-- A stage written in the platform's closed vocabulary.
pub record IsKnown (s : StageSpec) : Type 0 where
  pub type : is_in s.type (names type_by_enum) ≡ true
  pub gate : is_in s.gate (names gate_by_enum) ≡ true
  pub artifacts : All (λ a. is_in a (names artifact_by_enum) ≡ true) s.artifacts

artifacts_back :
    (xs : List String)
    → All (λ a. is_in a (names artifact_by_enum) ≡ true) xs
    → map (name_of artifact_by_enum) (map (value_of artifact_by_enum) xs) ≡ xs
artifacts_back [] h = refl
artifacts_back (x ∷ xs) h = cc (name_of-value_of artifact_by_enum x refl h.0, artifacts_back xs h.1)

stage_back : (s : StageSpec) → IsKnown s → stage_spec (stage_for_the_core s) ≡ s
stage_back s k = cc (
  name_of-value_of type_by_enum s.type refl k.type,
  name_of-value_of gate_by_enum s.gate refl k.gate,
  artifacts_back s.artifacts k.artifacts,
)

stages_back :
    (xs : List StageSpec) → All IsKnown xs → map stage_spec (map stage_for_the_core xs) ≡ xs
stages_back [] h = refl
stages_back (x ∷ xs) h = cc (stage_back x h.0, stages_back xs h.1)

-- A flow that a client writes in the closed vocabulary reaches the core and reads back as it was
-- written: every stage, in order, with its type, artifacts, gate and subtypes.
flow_of-flow_for_the_core :
    (body : NewFlow) (flow_id : String)
    → All IsKnown body.stages
    → flow_of (flow_for_the_core body flow_id) ≡ record {
      id = flow_id;
      name = body.name;
      description = body.description;
      version = 0;
      owner_scope = body.owner_scope;
      owner_id = body.owner_id;
      stages = body.stages;
    }
unfolding flow_of flow_for_the_core
flow_of-flow_for_the_core body flow_id known = cc (stages_back body.stages known)

-- The provenance says that it is truncated exactly if there are fewer origins than stages, where
-- an absent flow has no stages.
provenance_truncated :
    (eff : PbEffectiveFlow)
    → ((provenance eff).truncated ≡ true) ↔ (length eff.origins < stage_count eff.flow)
unfolding provenance
provenance_truncated eff = ground (arith, length-map origin_of eff.origins)

module _ {W : Type 0} (out : Outside W) (stub : WorkflowStub W) (s : Scope) (w : W)
    (ctx : AuthContext) (here : s.auth_ctx ≡ some ctx)
    (account : is_empty ctx.account_id ≡ false) where
  -- A caller who is neither owner nor admin promotes no flow, and writes none unless a developer:
  -- the refusal is a 403, and the core is not called.
  writes_refused :
      (body : NewFlow) (target : PromotionTarget) (flow_id key : String)
      → has_role ctx managers ≡ false
      → (promote_flow out stub flow_id target s w ≡ (refuse 403 "Insufficient permission", w))
        × ((ctx.role ≡ "developer")
            ⊎ ((create_flow out stub body key s w ≡ (refuse 403 "Insufficient permission", w))
                × (update_flow out stub flow_id body s w
                    ≡ (refuse 403 "Insufficient permission", w))))
  unfolding promote_flow create_flow update_flow
  writes_refused body target flow_id key lacks = (
    role_missing managers _ s w ctx here account lacks,
    elim (Bool-cases (has_role ctx writers)) [
      | inl writes ↦ inl (ground (arith, eq_iff ctx.role "developer"))
      | inr reads ↦ inr (
        role_missing writers _ s w ctx here account reads,
        role_missing writers _ s w ctx here account reads,
      )
    ],
  )
