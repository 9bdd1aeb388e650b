-- ===== src/Usecases/Demand.antt =====
-- app/usecases/demand.py: the demand, its threads and its findings. An instant is in microseconds.
pub mod Messages
pub mod Views
pub mod Models
pub mod Laws
use dop_api.Base.{ℕ, String, none, some, List, map, nat_eq, string_eq}
use dop_api.Platform.Context.{AuthContext}
use dop_api.Platform.Errors.{Error}
use dop_api.Platform.Edge.{Edge, ◌>>=◌, pure, raise, Order, gather}
use dop_api.Platform.Decorator.{account_scoped, require_role, writers}
use dop_api.Coreclient.Client.{Outside, call, idempotency, metadata_for}
use Messages.{DemandStub}
use Models.{
  Stage, Demand, DemandPage, Thread, Message, Finding, DemandCockpit, NewDemand, StageTransition,
  GateDecision, NewThread, NewMessage, NewFinding,
}
use Views.{
  stage_status_value, stage_of, demand_of, thread_of, message_of, finding_of, pb_card, optional_id,
  author_of,
}

module _ {W : Type 0} (out : Outside W) (stub : DemandStub W) where
  unfoldable pub list_demands : String → ℕ → String → Edge W DemandPage
  list_demands project_id page_size page_token = account_scoped do
    resp ←
        call out stub.list_demands
          (record { project = optional_id project_id; size = page_size; token = page_token })
    pure (record { demands = map demand_of resp.demands; next_page_token = resp.next_token })

  unfoldable pub get_demand : String → Edge W Demand
  get_demand demand_id =
      account_scoped do d ← call out stub.get_demand demand_id; pure (demand_of d)

  unfoldable pub list_threads : String → Edge W (List Thread)
  list_threads demand_id =
      account_scoped do threads ← call out stub.list_threads demand_id; pure (map thread_of threads)

  unfoldable pub list_findings : String → String → Edge W (List Finding)
  list_findings demand_id thread_id = account_scoped do
    findings ← call out stub.list_findings (record { demand_id = demand_id; thread_id = thread_id })
    pure (map finding_of findings)

  -- The three reads run concurrently; the order in which they end is the first argument.
  unfoldable pub get_cockpit : Order → String → Edge W DemandCockpit
  get_cockpit order demand_id = account_scoped do
    (demand, threads, findings) ←
        gather order (get_demand demand_id) (list_threads demand_id) (list_findings demand_id "")
    pure (record { demand = demand; threads = threads; findings = findings })

  pub start_demand : NewDemand → String → Edge W Demand
  start_demand body idempotency_key = account_scoped (
      require_role writers do
        key ← idempotency out idempotency_key
        d ← call out stub.start_demand (record {
          project = body.project_id;
          external_key = body.external_key;
          idempotency_key = key;
        })
        pure (demand_of d))

  pub advance_stage : String → String → StageTransition → String → Edge W Stage
  advance_stage demand_id stage_key body idempotency_key = account_scoped (
      require_role writers do
        key ← idempotency out idempotency_key
        s ← call out stub.advance_stage (record {
          demand_id = demand_id;
          stage_key = stage_key;
          status = stage_status_value body.status;
          idempotency_key = key;
        })
        pure (stage_of s))

  pub decide_gate : String → String → GateDecision → String → Edge W Stage
  decide_gate demand_id stage_key body idempotency_key = account_scoped (
      require_role writers do
        key ← idempotency out idempotency_key
        s ← call out stub.decide_gate (record {
          demand_id = demand_id;
          stage_key = stage_key;
          approved = body.approved;
          comment = body.comment;
          idempotency_key = key;
        })
        pure (stage_of s))

  pub create_thread : String → NewThread → String → Edge W Thread
  create_thread demand_id body idempotency_key = account_scoped (
      require_role writers do
        key ← idempotency out idempotency_key
        t ← call out stub.create_thread (record {
          demand_id = demand_id;
          key = body.key;
          card = pb_card body.card;
          idempotency_key = key;
        })
        pure (thread_of t))

  -- The message itself goes out under metadata of its own.
  unfoldable pub post_as : AuthContext → String → NewMessage → String → String → Edge W Message
  post_as ctx thread_id body idempotency_key actor_kind = do
    key ← idempotency out idempotency_key
    md ← metadata_for out (author_of ctx actor_kind)
    m ← λ s w.
        stub.post_message md
          (record { thread_id = thread_id; text = body.text; idempotency_key = key }) w
    pure (message_of m)

  -- For the caller in the context.
  abbrev pub post_here : String → NewMessage → String → String → Edge W Message
  post_here thread_id body idempotency_key actor_kind s w = elim s.auth_ctx [
    | none ↦ raise (Error.failure "no context") s w
    | some ctx ↦ post_as ctx thread_id body idempotency_key actor_kind s w
  ]

  unfoldable pub post_message : String → NewMessage → String → String → Edge W Message
  post_message thread_id body idempotency_key actor_kind =
      account_scoped (require_role writers (post_here thread_id body idempotency_key actor_kind))

  pub publish_finding : String → NewFinding → String → Edge W Finding
  publish_finding demand_id body idempotency_key = account_scoped (
      require_role writers do
        key ← idempotency out idempotency_key
        f ← call out stub.publish_finding (record {
          demand_id = demand_id;
          thread_id = body.thread_id;
          title = body.title;
          payload = body.payload;
          idempotency_key = key;
        })
        pure (finding_of f))
