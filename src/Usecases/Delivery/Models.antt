-- ===== src/Usecases/Delivery/Models.antt =====
-- app/usecases/delivery.py: the edge's models, with the core's messages that they are made from.
use dop_api.Base.{ℕ, String, Bool, Option, List}
use dop_api.Platform.Json.{Fields}
use dop_api.Coreclient.Client.{Rpc}

pub record Reviewer : Type 0 where
  pub name : String
  pub initials : String
  pub status : String

pub record PullRequest : Type 0 where
  pub id : String
  pub demand_id : String
  pub repo : String
  pub source_branch : String
  pub target_branch : String
  pub url : String
  pub merged : Bool
  pub has_conflict : Bool
  pub reviewers : List Reviewer
  pub pending_reviews : ℕ

pub record MergeQueueEntry : Type 0 where
  pub id : String
  pub repo_id : String
  pub demand_id : String
  pub position : ℕ
  pub state : String
  pub overlapping_files : List String

pub record Directive : Type 0 where
  pub id : String
  pub project_id : String
  pub kind : String
  pub payload : Fields
  pub decided_by_id : String
  pub decided_by_name : String

pub record MergeRefusal : Type 0 where
  pub reason : String
  pub missing : List String

pub record MergeAttempt : Type 0 where
  pub entry : Option MergeQueueEntry
  pub refusal : Option MergeRefusal

pub record DeliveryBoard : Type 0 where
  pub pull_requests : List PullRequest
  pub directives : List Directive

pub record NewMergeEntry : Type 0 where
  pub demand_id : String

pub record DirectiveDecision : Type 0 where
  pub decision : Fields

-- `dop.v1`'s messages, as far as the edge reads and writes them.
pub record PbPullRequest : Type 0 where
  pub id : String
  pub demand_id : String
  pub repo : String
  pub source_branch : String
  pub target_branch : String
  pub url : String
  pub merged : Bool
  pub has_conflict : Bool
  pub reviewers : List Reviewer

pub record PbMergeQueueEntry : Type 0 where
  pub id : String
  pub repo_id : String
  pub demand_id : String
  pub position : ℕ
  pub state : ℕ
  pub overlapping_files : List String

pub record PbDirective : Type 0 where
  pub id : String
  pub project_id : String
  pub kind : ℕ
  pub payload : Option Fields
  pub decided_by_id : String
  pub decided_by_name : String

pub record ListPullRequestsRequest : Type 0 where
  pub demand_id : String
  pub project : Option String

pub record EnqueueMergeRequest : Type 0 where
  pub repo_id : String
  pub demand_id : String
  pub idempotency_key : String

pub record DecideDirectiveRequest : Type 0 where
  pub directive_id : String
  pub decision : Fields
  pub idempotency_key : String

pub record DeliveryStub (W : Type 0) : Type 0 where
  pub list_pull_requests : Rpc W ListPullRequestsRequest (List PbPullRequest)
  pub list_directives : Rpc W String (List PbDirective)
  pub get_merge_queue : Rpc W String (List PbMergeQueueEntry)
  pub enqueue_merge : Rpc W EnqueueMergeRequest PbMergeQueueEntry
  pub decide_directive : Rpc W DecideDirectiveRequest PbDirective
