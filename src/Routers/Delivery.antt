-- ===== src/Routers/Delivery.antt =====
-- app/routers/delivery.py: the delivery routes of REST. All but one are the use case itself: the
-- framework makes the body, with its constraints, before a route runs.
pub mod Laws
use dop_api.Base.{ℕ, String, Bool, none, some, List, nat_eq, string_eq}
use dop_api.Platform.Errors.{Error}
use dop_api.Platform.Edge.{Edge, ◌>>=◌, pure, raise}
use dop_api.Coreclient.Client.{Outside}
use dop_api.Usecases.Delivery.Models.{
  PullRequest, MergeQueueEntry, Directive, MergeRefusal, MergeAttempt, DeliveryBoard, NewMergeEntry,
  DirectiveDecision, DeliveryStub,
}
use dop_api.Usecases.Delivery

-- What the `JSONResponse` holds.
pub data Content : Type 0 where
  detail : MergeRefusal → Content
  entry : MergeQueueEntry → Content

pub record JsonResponse : Type 0 where
  pub status_code : ℕ
  pub content : Content

-- The second half of `enqueue_merge`; `attempt.entry.model_dump()` raises without an entry.
unfoldable pub response_of : {W : Type 0} → MergeAttempt → Edge W JsonResponse
response_of attempt = elim attempt.refusal [
  | some r ↦ pure (record { status_code = 412; content = Content.detail r })
  | none ↦ elim attempt.entry [
    | some e ↦ pure (record { status_code = 201; content = Content.entry e })
    | none ↦ raise (Error.failure "'NoneType' object has no attribute 'model_dump'")
  ]
]

module _ {W : Type 0} (out : Outside W) (stub : DeliveryStub W) where
  unfoldable pub get_board : Bool → String → Edge W DeliveryBoard
  get_board first project_id = Delivery.get_board out stub first project_id

  unfoldable pub list_pull_requests : String → String → Edge W (List PullRequest)
  list_pull_requests demand_id project_id =
      Delivery.list_pull_requests out stub demand_id project_id

  unfoldable pub get_merge_queue : String → Edge W (List MergeQueueEntry)
  get_merge_queue repo_id = Delivery.get_merge_queue out stub repo_id

  unfoldable pub enqueue_merge : String → NewMergeEntry → String → Edge W JsonResponse
  enqueue_merge repo_id body idempotency_key = do
    attempt ← Delivery.enqueue_merge out stub repo_id body idempotency_key
    response_of attempt

  unfoldable pub list_directives : String → Edge W (List Directive)
  list_directives project_id = Delivery.list_directives out stub project_id

  unfoldable pub decide_directive : String → DirectiveDecision → String → Edge W Directive
  decide_directive directive_id body idempotency_key =
      Delivery.decide_directive out stub directive_id body idempotency_key
