-- ===== src/Usecases/Runtime/Laws.antt =====
-- A turn is never run twice on a key that the edge made up.
use dop_api.Base.{refl, ◌≡◌, String, nat_eq, string_eq, arith}
use dop_api.Platform.Context.{Scope}
use dop_api.Platform.Decorator.{account_scoped, require_role}
use dop_api.Coreclient.Client.{Outside, Metadata}
use dop_api.Coreclient.Client.Laws.{call_alike}
use dop_api.Usecases.Runtime.Models.{RunTurn, RunTurnRequest, AgentStub}
use dop_api.Usecases.Runtime.{run_turn}

-- The core is asked for no other turn than one under the client's own key, an empty one too, and with
-- the text, the work kind and the limit of the client's request: a core that answers otherwise to any
-- other request makes no difference.
run_turn_own :
    {W : Type 0} (out : Outside W) (stub other : AgentStub W) (demand_id thread_id key : String)
    (body : RunTurn) (s : Scope) (w : W)
    → ((md : Metadata) (q : RunTurnRequest) (v : W)
        → q.idempotency_key ≡ key
        → q.text ≡ body.text
        → q.task_kind ≡ body.task_kind
        → q.max_output_tokens ≡ body.max_output_tokens
        → stub.run_turn md q v ≡ other.run_turn md q v)
    → run_turn out stub demand_id thread_id body key s w
      ≡ run_turn out other demand_id thread_id body key s w
unfolding run_turn account_scoped require_role
run_turn_own out stub other demand_id thread_id key body s w alike =
    let request : RunTurnRequest = record {
      demand_id = demand_id;
      thread_id = thread_id;
      text = body.text;
      task_kind = body.task_kind;
      resource_id = body.resource_id;
      operator_note = body.operator_note;
      max_output_tokens = body.max_output_tokens;
      idempotency_key = key;
    } in
    ground (
      arith,
      call_alike out stub.run_turn other.run_turn request s w
          (λ md v. alike md request v refl refl refl refl),
    )
