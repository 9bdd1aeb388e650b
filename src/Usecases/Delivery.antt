-- ===== src/Usecases/Delivery.antt =====
-- app/usecases/delivery.py: the pull requests, the merge queue and the directives.
pub mod Models
pub mod Refusal
pub mod Laws
use dop_api.Base.{
  String, Bool, true, false, none, some, List, [], ◌∷◌, map, ◌==◌, nat_eq, string_eq, count_where,
  is_empty, if◌then◌else◌,
}
use dop_api.Platform.Json.{end}
use dop_api.Base.Table.{Table, name_of}
use dop_api.Platform.Errors.{Result, done, raised, rpc, StatusCode}
use dop_api.Platform.Edge.{Edge, ◌>>=◌, pure, gather_two}
use dop_api.Platform.Decorator.{account_scoped, require_role, writers}
use dop_api.Coreclient.Client.{Outside, call, idempotency}
use Models.{
  Reviewer, PullRequest, MergeQueueEntry, Directive, MergeAttempt, DeliveryBoard, NewMergeEntry,
  DirectiveDecision, PbPullRequest, PbMergeQueueEntry, PbDirective, DeliveryStub,
}
use Refusal.{refusal}

abbrev pub state_by_enum : Table
state_by_enum =
    (1, "queued") ∷ (2, "rebasing") ∷ (3, "verifying") ∷ (4, "merged") ∷ (5, "conflict") ∷ []

abbrev pub directive_by_enum : Table
directive_by_enum =
    (1, "cherry_pick") ∷ (2, "merge_order") ∷ (3, "file_partition") ∷ (4, "cross_verify") ∷ []

abbrev pub pending_review : String
pending_review = "pending"

-- `_pull_request`.
unfoldable pub pull_request_of : PbPullRequest → PullRequest
pull_request_of pr = record {
  id = pr.id;
  demand_id = pr.demand_id;
  repo = pr.repo;
  source_branch = pr.source_branch;
  target_branch = pr.target_branch;
  url = pr.url;
  merged = pr.merged;
  has_conflict = pr.has_conflict;
  reviewers = pr.reviewers;
  pending_reviews = count_where (λ (r : Reviewer). r.status == pending_review) pr.reviewers;
}

-- `_entry`.
abbrev pub entry_of : PbMergeQueueEntry → MergeQueueEntry
entry_of e = record {
  id = e.id;
  repo_id = e.repo_id;
  demand_id = e.demand_id;
  position = e.position;
  state = name_of state_by_enum e.state;
  overlapping_files = e.overlapping_files;
}

-- `_directive`.
abbrev pub directive_of : PbDirective → Directive
directive_of d = record {
  id = d.id;
  project_id = d.project_id;
  kind = name_of directive_by_enum d.kind;
  payload = elim d.payload [ none ↦ end | some fields ↦ fields ];
  decided_by_id = d.decided_by_id;
  decided_by_name = d.decided_by_name;
}

abbrev is_failed_precondition : StatusCode → Bool
is_failed_precondition StatusCode.failed_precondition = true
is_failed_precondition _ = false

-- The `try` around `EnqueueMerge`.
abbrev pub attempt_of : Result PbMergeQueueEntry → Result MergeAttempt
attempt_of (done e) = done (record { entry = some (entry_of e); refusal = none })
attempt_of (raised (rpc exc)) =
    if is_failed_precondition exc.code
    then done (record { entry = none; refusal = some (refusal exc.details) })
    else raised (rpc exc)
attempt_of (raised e) = raised e

module _ {W : Type 0} (out : Outside W) (stub : DeliveryStub W) where
  unfoldable pub list_pull_requests : String → String → Edge W (List PullRequest)
  list_pull_requests demand_id project_id = account_scoped do
    prs ← call out stub.list_pull_requests (record {
      demand_id = demand_id;
      project = if is_empty project_id then none else some project_id;
    })
    pure (map pull_request_of prs)

  unfoldable pub list_directives : String → Edge W (List Directive)
  list_directives project_id =
      account_scoped do ds ← call out stub.list_directives project_id; pure (map directive_of ds)

  -- The two reads run concurrently; whether the first ends first is the first argument.
  pub get_board : Bool → String → Edge W DeliveryBoard
  get_board first project_id = account_scoped do
    (prs, directives) ←
        gather_two first (list_pull_requests "" project_id) (list_directives project_id)
    pure (record { pull_requests = prs; directives = directives })

  unfoldable pub get_merge_queue : String → Edge W (List MergeQueueEntry)
  get_merge_queue repo_id =
      account_scoped do es ← call out stub.get_merge_queue repo_id; pure (map entry_of es)

  -- The attempt, before its decorators.
  pub attempt : String → NewMergeEntry → String → Edge W MergeAttempt
  attempt repo_id body idempotency_key s w =
      let (answer, w') =
        (do
          key ← idempotency out idempotency_key
          call out stub.enqueue_merge
              (record { repo_id = repo_id; demand_id = body.demand_id; idempotency_key = key }))
          s w in
      (attempt_of answer, w')

  pub enqueue_merge : String → NewMergeEntry → String → Edge W MergeAttempt
  unfolding attempt
  enqueue_merge repo_id body idempotency_key =
      account_scoped (require_role writers (attempt repo_id body idempotency_key))

  unfoldable pub decide_directive : String → DirectiveDecision → String → Edge W Directive
  decide_directive directive_id body idempotency_key = account_scoped (
      require_role writers do
        key ← idempotency out idempotency_key
        d ← call out stub.decide_directive (record {
          directive_id = directive_id;
          decision = body.decision;
          idempotency_key = key;
        })
        pure (directive_of d))
