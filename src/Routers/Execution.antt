-- ===== src/Routers/Execution.antt =====
-- app/routers/execution.py: each route is its use case.
use dop_api.Base.{String, nat_eq, string_eq}
use dop_api.Platform.Edge.{Edge}
use dop_api.Coreclient.Client.{Outside}
use dop_api.Usecases.Execution.Models.{SandboxSummary, NewSandbox, DestroyResult, ExecutionStub}
use dop_api.Usecases.Execution

module _ {W : Type 0} (out : Outside W) (stub : ExecutionStub W) where
  unfoldable pub provision_sandbox : NewSandbox → String → Edge W SandboxSummary
  provision_sandbox body idempotency_key = Execution.provision_sandbox out stub body idempotency_key

  unfoldable pub describe_sandbox : String → Edge W SandboxSummary
  describe_sandbox sandbox_id = Execution.describe_sandbox out stub sandbox_id

  unfoldable pub suspend_sandbox : String → Edge W SandboxSummary
  suspend_sandbox sandbox_id = Execution.suspend_sandbox out stub sandbox_id

  unfoldable pub resume_sandbox : String → Edge W SandboxSummary
  resume_sandbox sandbox_id = Execution.resume_sandbox out stub sandbox_id

  unfoldable pub destroy_sandbox : String → Edge W DestroyResult
  destroy_sandbox sandbox_id = Execution.destroy_sandbox out stub sandbox_id
