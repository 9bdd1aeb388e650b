-- ===== src/Tests/Sandbox.antt =====
-- The theorems about sandboxes, factors and turns at concrete requests.
use dop_api.Base.{suc, ℕ, true, false, none, [], ◌==◌, nat_eq, string_eq, if◌then◌else◌}
use dop_api.Base.Int.{pos}
use dop_api.Platform.Errors.{HttpException, Error, done, raised}
use dop_api.Coreclient.Client.{Rpc}
use dop_api.Usecases.Execution.Models.{PbSandbox, ProvisionSandboxRequest, ExecutionStub}
use dop_api.Grpcapi.Execution.{BffProvisionRequest}
use dop_api.Usecases.SecondFactor.Models.{NewFactor}
use dop_api.Usecases.Runtime.Models.{PbTurnOutcome}
use dop_api.Tests.World.{unused}

abbrev sandbox : PbSandbox
sandbox = record {
  id = "s1";
  demand_id = "d1";
  state = 1;
  tier = 3;
  namespace = "ns";
  endpoints = [];
  last_active_at = none;
}

-- A method that answers the lowest level alone.
abbrev lowest : Rpc ℕ ProvisionSandboxRequest PbSandbox
lowest md q n =
    if q.min_tier == 3 then (done sandbox, suc n) else (raised (Error.failure "strict"), n)

abbrev execution_with : Rpc ℕ ProvisionSandboxRequest PbSandbox → ExecutionStub ℕ
execution_with provision = record {
  provision = provision;
  describe = unused;
  suspend = unused;
  resume = unused;
  destroy = unused;
}

abbrev ask : BffProvisionRequest
ask = record { demand_id = "d1"; min_tier = 3; idempotency_key = "" }

abbrev pigeon : NewFactor
pigeon = record { kind = "pigeon"; label = "bird"; destination = "" }

abbrev refusal : HttpException
refusal = record { status_code = 422; detail = "unknown second factor kind: 'pigeon'" }

abbrev ran : PbTurnOutcome
ran = record {
  demand = "d1";
  thread_id = "t1";
  provider = "";
  routing = record {
    task_kind = "implementation";
    model_class = "";
    model = "";
    effort = "";
    effort_applied = "";
    reason = "";
    from_agent_card = false;
  };
  reply = "";
  message_ids = [];
  concluded = false;
  finding = none;
  usage = record {
    input_tokens = 0;
    output_tokens = 0;
    cache_read_tokens = 0;
    cache_creation_tokens = 0;
    cost = record { currency = ""; amount_micros = pos 0 };
    cache_creation_known = true;
    cost_known = true;
  };
  context_truncated = false;
  paused = false;
  notice = "";
}
