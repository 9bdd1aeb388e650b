-- ===== src/Grpcapi/Execution.antt =====
-- app/grpcapi/execution.py: the sandbox on the gRPC port.
pub mod Laws
use dop_api.Base.{ℕ, String, Bool, Option, List, [], ◌∷◌, nat_eq, string_eq}
use dop_api.Base.Table.{Table, name_of, value_of}
use dop_api.Platform.Edge.{Edge, ◌>>=◌, pure, refusing}
use dop_api.Coreclient.Client.{Outside}
use dop_api.Usecases.Execution.Models.{EndpointSummary, SandboxSummary, ExecutionStub}
use dop_api.Usecases.Execution.{
  new_sandbox, provision_sandbox, describe_sandbox, suspend_sandbox, resume_sandbox,
  destroy_sandbox,
}

-- `ProvisionSandboxRequest` and `Sandbox` of app/grpcapi/gen/dop/bff/v1/execution_pb2.pyi.
pub record BffProvisionRequest : Type 0 where
  pub demand_id : String
  pub min_tier : ℕ
  pub idempotency_key : String

pub record BffSandbox : Type 0 where
  pub id : String
  pub demand_id : String
  pub state : ℕ
  pub tier : ℕ
  pub namespace : String
  pub endpoints : List EndpointSummary
  pub last_active_at : Option ℕ

-- `_NAME_BY_TIER` and `_TIER_BY_NAME`; 0 is ISOLATION_TIER_UNSPECIFIED.
abbrev pub name_by_tier : Table
name_by_tier = (1, "hardware") ∷ (2, "kernel_emulated") ∷ (3, "namespace") ∷ []

abbrev pub state_by_name : Table
state_by_name = (1, "provisioning") ∷ (2, "active") ∷ (3, "suspended") ∷ (4, "destroyed") ∷ []

-- `_sandbox`.
pub sandbox_message : SandboxSummary → BffSandbox
sandbox_message s = record {
  id = s.id;
  demand_id = s.demand_id;
  state = value_of state_by_name s.state;
  tier = value_of name_by_tier s.tier;
  namespace = s.namespace;
  endpoints = s.endpoints;
  last_active_at = s.last_active_at;
}

module _ {W : Type 0} (out : Outside W) (stub : ExecutionStub W) where
  abbrev answered : Edge W SandboxSummary → Edge W BffSandbox
  answered f = do s ← f; pure (sandbox_message s)

  -- `ProvisionSandbox`; the model's validation is the first step.
  pub provision_rpc : BffProvisionRequest → Edge W BffSandbox
  unfolding sandbox_message
  provision_rpc request = do
    body ← refusing (new_sandbox request.demand_id (name_of name_by_tier request.min_tier))
    s ← provision_sandbox out stub body request.idempotency_key
    pure (sandbox_message s)

  unfoldable pub describe_rpc : String → Edge W BffSandbox
  describe_rpc id = answered (describe_sandbox out stub id)

  unfoldable pub suspend_rpc : String → Edge W BffSandbox
  suspend_rpc id = answered (suspend_sandbox out stub id)

  unfoldable pub resume_rpc : String → Edge W BffSandbox
  resume_rpc id = answered (resume_sandbox out stub id)

  unfoldable pub destroy_rpc : String → Edge W Bool
  destroy_rpc id = do r ← destroy_sandbox out stub id; pure r.destroyed
