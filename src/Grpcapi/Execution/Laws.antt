-- ===== src/Grpcapi/Execution/Laws.antt =====
-- A level of isolation on its way from the client of the gRPC port to the core, and back.
use dop_api.Base.{refl, ◌≡◌, nat_eq, string_eq, if◌then◌else◌}
use dop_api.Base.Table.{value_of-back, knows}
use dop_api.Coreclient.Client.{Metadata}
use dop_api.Usecases.Execution.Models.{PbSandbox, ProvisionSandboxRequest, ExecutionStub}
use dop_api.Usecases.Execution.{tier_by_name, state_by_enum, sandbox_of}
use dop_api.Grpcapi.Execution.{BffProvisionRequest, sandbox_message}

-- The two stubs answer alike to a request for this demand at this level. The two contracts number
-- the levels alike.
abbrev pub LevelAlike :
    {W : Type 0} → BffProvisionRequest → ExecutionStub W → ExecutionStub W → Type 0
LevelAlike {W} request stub other =
    (md : Metadata) (q : ProvisionSandboxRequest) (w : W)
    → q.demand_id ≡ request.demand_id
    → q.min_tier ≡ request.min_tier
    → stub.provision md q w ≡ other.provision md q w

-- What a sandbox was delivered at, and the state it is in, reach the client of the gRPC port with the
-- core's own numbers, and a number that the edge does not know as none.
sandbox_message-sandbox_of :
    (s : PbSandbox)
    → let m = sandbox_message (sandbox_of s) in
      (m.tier ≡ (if knows tier_by_name s.tier then s.tier else 0))
      × (m.state ≡ (if knows state_by_enum s.state then s.state else 0))
unfolding sandbox_message sandbox_of
sandbox_message-sandbox_of s =
    (value_of-back tier_by_name s.tier refl refl, value_of-back state_by_enum s.state refl refl)
