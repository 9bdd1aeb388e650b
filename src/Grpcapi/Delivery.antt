-- ===== src/Grpcapi/Delivery.antt =====
-- app/grpcapi/delivery.py: delivery on the gRPC port. A pull request, its reviewers and a refusal have
-- the fields of the use case's models and stand as those; a `Struct` stands as the dictionary that it
-- is converted to.
use dop_api.Base.{ℕ, String, Bool, Option, none, some, List, [], ◌∷◌, map, nat_eq, string_eq}
use dop_api.Base.Table.{Table, value_of}
use dop_api.Platform.Json.{Fields}
use dop_api.Platform.Edge.{Edge, ◌>>=◌, pure, refusing}
use dop_api.Coreclient.Client.{Outside}
use dop_api.Usecases.Delivery.Models.{
  PullRequest, MergeQueueEntry, Directive, MergeRefusal, MergeAttempt, DeliveryStub,
}
use dop_api.Usecases.Delivery.{
  get_board, list_pull_requests, get_merge_queue, enqueue_merge, list_directives, decide_directive,
}
use dop_api.Usecases.Forms.{new_merge_entry}

abbrev pub state_by_enum : Table
state_by_enum =
    (1, "queued") ∷ (2, "rebasing") ∷ (3, "verifying") ∷ (4, "merged") ∷ (5, "conflict") ∷ []

abbrev pub directive_by_enum : Table
directive_by_enum =
    (1, "cherry_pick") ∷ (2, "merge_order") ∷ (3, "file_partition") ∷ (4, "cross_verify") ∷ []

-- The messages of app/grpcapi/gen/dop/bff/v1/delivery_pb2.pyi.
pub record BffMergeQueueEntry : Type 0 where
  pub id : String
  pub repo_id : String
  pub demand_id : String
  pub position : ℕ
  pub state : ℕ
  pub overlapping_files : List String

pub record BffDirective : Type 0 where
  pub id : String
  pub project_id : String
  pub kind : ℕ
  pub payload : Option Fields
  pub decided_by_id : String
  pub decided_by_name : String

pub record BffDeliveryBoard : Type 0 where
  pub pull_requests : List PullRequest
  pub directives : List BffDirective

-- `EnqueueMergeResponse`.
pub record BffEnqueueMerge : Type 0 where
  pub entry : Option BffMergeQueueEntry
  pub refusal : Option MergeRefusal

-- `_entry`.
abbrev pub entry_message : MergeQueueEntry → BffMergeQueueEntry
entry_message e = record {
  id = e.id;
  repo_id = e.repo_id;
  demand_id = e.demand_id;
  position = e.position;
  state = value_of state_by_enum e.state;
  overlapping_files = e.overlapping_files;
}

-- `_directive`.
abbrev pub directive_message : Directive → BffDirective
directive_message d = record {
  id = d.id;
  project_id = d.project_id;
  kind = value_of directive_by_enum d.kind;
  payload = some d.payload;
  decided_by_id = d.decided_by_id;
  decided_by_name = d.decided_by_name;
}

-- The answer of `EnqueueMerge`.
unfoldable pub attempt_message : MergeAttempt → BffEnqueueMerge
attempt_message a = record {
  entry = elim a.entry [ none ↦ none | some e ↦ some (entry_message e) ];
  refusal = a.refusal;
}

-- `MessageToDict(request.decision) if request.HasField("decision") else {}`.
abbrev pub given_decision : Option Fields → Fields
given_decision none = Fields.end
given_decision (some decision) = decision

module _ {W : Type 0} (out : Outside W) (stub : DeliveryStub W) where
  -- Which of the two reads ends first is the first argument, as in the use case.
  unfoldable pub get_board_rpc : Bool → String → Edge W BffDeliveryBoard
  get_board_rpc first project_id = do
    board ← get_board out stub first project_id
    pure (record {
      pull_requests = board.pull_requests;
      directives = map directive_message board.directives;
    })

  unfoldable pub list_pull_requests_rpc : String → String → Edge W (List PullRequest)
  list_pull_requests_rpc demand_id project_id = list_pull_requests out stub demand_id project_id

  unfoldable pub get_merge_queue_rpc : String → Edge W (List BffMergeQueueEntry)
  get_merge_queue_rpc repo_id = do
    queue ← get_merge_queue out stub repo_id
    pure (map entry_message queue)

  unfoldable pub enqueue_merge_rpc : String → String → String → Edge W BffEnqueueMerge
  enqueue_merge_rpc repo_id demand_id key = do
    body ← refusing (new_merge_entry (record { demand_id = demand_id }))
    attempt ← enqueue_merge out stub repo_id body key
    pure (attempt_message attempt)

  unfoldable pub list_directives_rpc : String → Edge W (List BffDirective)
  list_directives_rpc project_id = do
    ds ← list_directives out stub project_id
    pure (map directive_message ds)

  unfoldable pub decide_directive_rpc : String → Option Fields → String → Edge W BffDirective
  decide_directive_rpc directive_id decision key = do
    d ← decide_directive out stub directive_id (record { decision = given_decision decision }) key
    pure (directive_message d)
