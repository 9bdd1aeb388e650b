-- ===== src/Routers/Workflow.antt =====
-- app/routers/workflow.py: each route is its use case.
use dop_api.Base.{String, List}
use dop_api.Platform.Edge.{Edge}
use dop_api.Coreclient.Client.{Outside}
use dop_api.Usecases.Workflow.Messages.{WorkflowStub}
use dop_api.Usecases.Workflow.{Flow, NewFlow, PromotionTarget, EffectiveFlow, ValidationReport}
use dop_api.Usecases.Workflow

module _ {W : Type 0} (out : Outside W) (stub : WorkflowStub W) where
  unfoldable pub list_flows : String → String → Edge W (List Flow)
  list_flows owner_scope owner_id = Workflow.list_flows out stub owner_scope owner_id

  unfoldable pub create_flow : NewFlow → String → Edge W Flow
  create_flow body idempotency_key = Workflow.create_flow out stub body idempotency_key

  unfoldable pub resolve_flow : String → String → Edge W EffectiveFlow
  resolve_flow scope scope_id = Workflow.resolve_flow out stub scope scope_id

  unfoldable pub validate_flow : NewFlow → Edge W ValidationReport
  validate_flow body = Workflow.validate_flow out stub body

  unfoldable pub get_flow : String → Edge W Flow
  get_flow flow_id = Workflow.get_flow out stub flow_id

  unfoldable pub update_flow : String → NewFlow → Edge W Flow
  update_flow flow_id body = Workflow.update_flow out stub flow_id body

  unfoldable pub promote_flow : String → PromotionTarget → Edge W Flow
  promote_flow flow_id body = Workflow.promote_flow out stub flow_id body
