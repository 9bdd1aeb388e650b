-- ===== src/Usecases/Runtime.antt =====
-- app/usecases/runtime.py: a turn of an agent.
pub mod Models
pub mod Laws
use dop_api.Base.{String, Bool, List, [], ◌∷◌, not, ◌&&◌, nat_eq, string_eq, is_empty, leb}
use dop_api.Platform.Edge.{Edge, ◌>>=◌, pure}
use dop_api.Platform.Decorator.{account_scoped, require_role}
use dop_api.Coreclient.Client.{Outside, call}
use Models.{RunTurn, TurnOutcome, PbTurnOutcome, AgentStub}

abbrev pub turn_runners : List String
turn_runners = "owner" ∷ "admin" ∷ "developer" ∷ []

-- What `RunTurn`'s fields require.
unfoldable pub is_valid_turn : RunTurn → Bool
is_valid_turn body =
    not (is_empty body.text)
    && not (is_empty body.task_kind)
    && leb 256 body.max_output_tokens
    && leb body.max_output_tokens 64000

-- `_outcome`.
unfoldable pub turn_outcome : PbTurnOutcome → TurnOutcome
turn_outcome o = record {
  demand_id = o.demand;
  thread_id = o.thread_id;
  provider = o.provider;
  routing = record {
    task_kind = o.routing.task_kind;
    model = o.routing.model;
    effort = o.routing.effort;
    effort_applied = o.routing.effort_applied;
    reason = o.routing.reason;
    from_agent_card = o.routing.from_agent_card;
  };
  reply = o.reply;
  message_ids = o.message_ids;
  concluded = o.concluded;
  finding = o.finding;
  usage = o.usage;
  context_truncated = o.context_truncated;
  paused = o.paused;
  notice = o.notice;
}

module _ {W : Type 0} (out : Outside W) (stub : AgentStub W) where
  -- The key is the client's, also where it is empty.
  pub run_turn : String → String → RunTurn → String → Edge W TurnOutcome
  unfolding turn_outcome
  run_turn demand_id thread_id body idempotency_key = account_scoped (
      require_role turn_runners do
        o ← call out stub.run_turn (record {
          demand_id = demand_id;
          thread_id = thread_id;
          text = body.text;
          task_kind = body.task_kind;
          resource_id = body.resource_id;
          operator_note = body.operator_note;
          max_output_tokens = body.max_output_tokens;
          idempotency_key = idempotency_key;
        })
        pure (turn_outcome o))
