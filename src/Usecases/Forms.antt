-- ===== src/Usecases/Forms.antt =====
-- app/usecases: the constraints on the fields of what a client sends, as pydantic checks them when a
-- model is made. The error names the first field that breaks its constraint; the wording of the
-- library's own message is left out.
use dop_api.Base.{
  ℕ, String, Bool, List, [], ◌∷◌, not, ◌&&◌, nat_eq, string_eq, is_empty, is_in, leb, text_length,
  all, if◌then◌else◌,
}
use dop_api.Base.Int.{ℤ, pos, negsuc}
use dop_api.Platform.Errors.{Error, Result, done, raised}
use dop_api.Usecases.Workflow.{StageSpec, NewFlow, PromotionTarget}
use dop_api.Usecases.Demand.Models.{NewDemand, StageTransition, NewThread, NewMessage, NewFinding}
use dop_api.Usecases.Delivery.Models.{NewMergeEntry}
use dop_api.Usecases.Cost.Models.{NewBudget, NewUsage}
use dop_api.Usecases.Hierarchy.Models.{NewWorkspace, NewProject}
use dop_api.Usecases.Identity.Models.{StepUpdate, PlanChoice, NewAccount, NewInvite}
use dop_api.Usecases.Resource.Models.{NewResource, NewCredential, NewGrant}
use dop_api.Usecases.SecondFactor.Models.{NewFactor, ConfirmFactor, VerifyRequest, RecoveryRequest}

-- The model, if every field keeps its constraint.
abbrev pub checked : {A : Type 0} → List (String × Bool) → A → Result A
checked [] a = done a
checked ((field, keeps) ∷ fields) a =
    if keeps then checked fields a else raised (Error.validation field)

-- `Field(min_length=low, max_length=high)`.
abbrev pub has_length : ℕ → ℕ → String → Bool
has_length low high s = leb low (text_length s) && leb (text_length s) high

-- `Field(min_length=1)`.
abbrev pub is_given : String → Bool
is_given s = not (is_empty s)

-- `Query(min_length=1)`: a required text of a query.
abbrev pub given : String → String → Result String
given field s = checked ((field, is_given s) ∷ []) s

-- `Field(ge=0)`.
abbrev pub natural : String → ℤ → Result ℕ
natural field (pos n) = done n
natural field (negsuc n) = raised (Error.validation field)

unfoldable pub new_demand : NewDemand → Result NewDemand
new_demand body =
    checked
      (("project_id", is_given body.project_id) ∷ ("external_key", is_given body.external_key) ∷ [])
      body

unfoldable pub stage_transition : StageTransition → Result StageTransition
stage_transition body =
    checked (("status", is_in body.status ("pending" ∷ "running" ∷ "blocked" ∷ "done" ∷ [])) ∷ [])
      body

unfoldable pub new_thread : NewThread → Result NewThread
new_thread body = checked (("key", is_given body.key) ∷ []) body

unfoldable pub new_message : NewMessage → Result NewMessage
new_message body = checked (("text", is_given body.text) ∷ []) body

unfoldable pub new_finding : NewFinding → Result NewFinding
new_finding body =
    checked (("thread_id", is_given body.thread_id) ∷ ("title", is_given body.title) ∷ []) body

abbrev pub has_key : StageSpec → Bool
has_key s = is_given s.key

unfoldable pub valid_flow : NewFlow → Result NewFlow
valid_flow body =
    checked
      (("stages", all has_key body.stages)
        ∷ ("name", is_given body.name)
        ∷ ("owner_scope", is_given body.owner_scope)
        ∷ [])
      body

unfoldable pub promotion_target : PromotionTarget → Result PromotionTarget
promotion_target body = checked (("target_scope", is_given body.target_scope) ∷ []) body

unfoldable pub new_merge_entry : NewMergeEntry → Result NewMergeEntry
new_merge_entry body = checked (("demand_id", is_given body.demand_id) ∷ []) body

unfoldable pub new_budget : NewBudget → Result NewBudget
new_budget body = checked (("scope", is_in body.scope ("account" ∷ "demand" ∷ [])) ∷ []) body

unfoldable pub new_usage : NewUsage → Result NewUsage
new_usage body = checked (("model", is_given body.model) ∷ []) body

unfoldable pub new_workspace : NewWorkspace → Result NewWorkspace
new_workspace body = checked (("name", is_given body.name) ∷ ("key", is_given body.key) ∷ []) body

unfoldable pub new_project : NewProject → Result NewProject
new_project body =
    checked (("workspace_id", is_given body.workspace_id) ∷ ("name", is_given body.name) ∷ []) body

unfoldable pub step_update : StepUpdate → Result StepUpdate
step_update body = checked (("status", is_in body.status ("done" ∷ "skipped" ∷ [])) ∷ []) body

unfoldable pub plan_choice : PlanChoice → Result PlanChoice
plan_choice body = checked (("plan_key", is_given body.plan_key) ∷ []) body

unfoldable pub new_account : NewAccount → Result NewAccount
new_account body =
    checked (("handle", is_given body.handle) ∷ ("display_name", is_given body.display_name) ∷ [])
      body

unfoldable pub valid_invite : NewInvite → Result NewInvite
valid_invite body = checked (("email", leb 3 (text_length body.email)) ∷ []) body

unfoldable pub new_resource : NewResource → Result NewResource
new_resource body = checked (("kind", is_given body.kind) ∷ ("name", is_given body.name) ∷ []) body

unfoldable pub new_credential : NewCredential → Result NewCredential
new_credential body = checked (("secret_base64", is_given body.secret_base64) ∷ []) body

unfoldable pub new_grant : NewGrant → Result NewGrant
new_grant body =
    checked
      (("resource_id", is_given body.resource_id)
        ∷ ("user_id", is_given body.user_id)
        ∷ ("level", is_in body.level ("use" ∷ "manage" ∷ []))
        ∷ [])
      body

unfoldable pub new_factor : NewFactor → Result NewFactor
new_factor body = checked (("label", has_length 1 60 body.label) ∷ []) body

unfoldable pub confirm_factor : ConfirmFactor → Result ConfirmFactor
confirm_factor body = checked (("code", has_length 1 32 body.code) ∷ []) body

unfoldable pub verify_request : VerifyRequest → Result VerifyRequest
verify_request body = checked (("code", has_length 1 32 body.code) ∷ []) body

unfoldable pub recovery_request : RecoveryRequest → Result RecoveryRequest
recovery_request body = checked (("code", has_length 1 64 body.code) ∷ []) body
