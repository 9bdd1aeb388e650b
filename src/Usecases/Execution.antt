-- ===== src/Usecases/Execution.antt =====
-- app/usecases/execution.py: the sandbox of a demand. An instant is in microseconds.
pub mod Models
pub mod Laws
use dop_api.Base.{ℕ, String, List, [], ◌∷◌, nat_eq, string_eq, is_empty, is_in, if◌then◌else◌}
use dop_api.Base.Table.{Table, name_of, value_of, names}
use dop_api.Platform.Errors.{Error, Result, done, raised}
use dop_api.Platform.Edge.{Edge, ◌>>=◌, pure, refusing}
use dop_api.Platform.Decorator.{account_scoped, require_role}
use dop_api.Coreclient.Client.{Outside, call, idempotency}
use Models.{PbSandbox, SandboxSummary, NewSandbox, DestroyResult, ExecutionStub}

-- `_TIER_BY_NAME` and `_NAME_BY_TIER`.
abbrev pub tier_by_name : Table
tier_by_name = (1, "hardware") ∷ (2, "kernel_emulated") ∷ (3, "namespace") ∷ []

abbrev pub state_by_enum : Table
state_by_enum = (1, "provisioning") ∷ (2, "active") ∷ (3, "suspended") ∷ (4, "destroyed") ∷ []

abbrev pub changes_life_cycle : List String
changes_life_cycle = "owner" ∷ "admin" ∷ "developer" ∷ []

-- `NewSandbox`, as the validation of its fields leaves it: the demand is named and the level is one
-- of the three.
unfoldable pub new_sandbox : String → String → Result NewSandbox
new_sandbox demand_id min_tier =
    if is_empty demand_id
    then raised (Error.validation "demand_id")
    else if is_in min_tier (names tier_by_name)
    then done (record { demand_id = demand_id; min_tier = min_tier })
    else raised (Error.validation "min_tier")

-- `_TIER_BY_NAME[name]`.
abbrev pub tier_value : String → Result ℕ
tier_value name =
    if is_in name (names tier_by_name)
    then done (value_of tier_by_name name)
    else raised (Error.failure "KeyError")

-- `_sandbox`.
unfoldable pub sandbox_of : PbSandbox → SandboxSummary
sandbox_of s = record {
  id = s.id;
  demand_id = s.demand_id;
  state = name_of state_by_enum s.state;
  tier = name_of tier_by_name s.tier;
  namespace = s.namespace;
  endpoints = s.endpoints;
  last_active_at = s.last_active_at;
}

module _ {W : Type 0} (out : Outside W) (stub : ExecutionStub W) where
  pub provision_sandbox : NewSandbox → String → Edge W SandboxSummary
  unfolding sandbox_of
  provision_sandbox body idempotency_key = account_scoped (
      require_role changes_life_cycle do
        tier ← refusing (tier_value body.min_tier)
        key ← idempotency out idempotency_key
        s ←
            call out stub.provision
              (record { demand_id = body.demand_id; min_tier = tier; idempotency_key = key })
        pure (sandbox_of s))

  unfoldable pub describe_sandbox : String → Edge W SandboxSummary
  unfolding sandbox_of
  describe_sandbox id = account_scoped do s ← call out stub.describe id; pure (sandbox_of s)

  pub suspend_sandbox : String → Edge W SandboxSummary
  unfolding sandbox_of
  suspend_sandbox id =
      account_scoped
        (require_role changes_life_cycle do s ← call out stub.suspend id; pure (sandbox_of s))

  pub resume_sandbox : String → Edge W SandboxSummary
  unfolding sandbox_of
  resume_sandbox id =
      account_scoped
        (require_role changes_life_cycle do s ← call out stub.resume id; pure (sandbox_of s))

  pub destroy_sandbox : String → Edge W DestroyResult
  destroy_sandbox id = account_scoped (
      require_role changes_life_cycle
        do destroyed ← call out stub.destroy id; pure (record { destroyed = destroyed }))
