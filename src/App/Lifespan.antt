-- ===== src/App/Lifespan.antt =====
-- app/main.py: what happens from the start of the process to its end, with `GrpcServer.start` and
-- `stop` of app/grpcapi/server.py. What the operating system gives as the port is a parameter, 0 where
-- it cannot listen.
use dop_api.Platform.Tracing.{TraceSettings, Provider, setup}
use dop_api.Platform.Errors.{Result, done, raised, Result-cases}
use dop_api.Base.{
  Option, inl, inr, arith, ℕ, zero, suc, String, Bool, true, false, List, [], ◌∷◌, ◌++◌, Dict,
  get_default, is_empty, nat_eq, string_eq, ◌<>◌, after_prefix, ◌==◌, ◌&&◌, ◌||◌, not,
  if◌then◌else◌, ◌≡◌, refl, is_some,
}

-- `_bridge_storage_emulator`, on the environment.
unfoldable pub bridge_storage_emulator : Dict String → Dict String
bridge_storage_emulator env =
    let fb = get_default env "FIREBASE_STORAGE_EMULATOR_HOST" "" in
    let host = if is_some (after_prefix "http" fb) then fb else "http://" <> fb in
    if not (is_empty fb) && is_empty (get_default env "STORAGE_EMULATOR_HOST" "")
    then ("STORAGE_EMULATOR_HOST", host) ∷ env
    else env

-- What a step of the process does. An opened port has its number.
pub data Event : Type 0 where
  configured bridged traced connected registered : Event
  opened : ℕ → Event
  ready : ℕ → Event
  closed disconnected untraced stopped : Event

-- `GrpcServer.start` with the port that it was given: without one it raises.
abbrev pub started : ℕ → List Event × Bool
started zero = ([], false)
started (suc port) = (opened (suc port) ∷ [], true)

abbrev pub before_tracing : List Event
before_tracing = configured ∷ bridged ∷ []

abbrev pub before_grpc : List Event
before_grpc = before_tracing ++ traced ∷ connected ∷ registered ∷ []

abbrev pub after_grpc : List Event
after_grpc = disconnected ∷ untraced ∷ stopped ∷ []

-- Once the traces are set up: whether the gRPC port is enabled, and the port that it is given.
abbrev pub serving : Bool → ℕ → List Event
serving false port = before_grpc ++ ready 0 ∷ after_grpc
serving true port =
    let (events, listening) = started port in
    before_grpc ++ (if listening then events ++ ready port ∷ closed ∷ after_grpc else events)

-- `lifespan`.
unfoldable pub lifespan : TraceSettings → Bool → ℕ → List Event
lifespan traces enabled port = elim (setup traces) [
  | done _ ↦ serving enabled port
  | raised e ↦ before_tracing
]

-- The process as its clients find it: the channel to the core, and the open gRPC port, or 0.
pub record Process : Type 0 where
  pub channel : Bool
  pub grpc_port : ℕ

abbrev pub idle : Process
idle = record { channel = false; grpc_port = 0 }

abbrev pub after : Process → Event → Process
after p connected = record p { channel = true }
after p disconnected = record p { channel = false }
after p (opened port) = record p { grpc_port = port }
after p closed = record p { grpc_port = 0 }
after p _ = p

abbrev pub serves_core : Process → Bool
serves_core p = p.grpc_port == 0 || p.channel

abbrev pub is_set_up : Result (Option Provider) → Bool
is_set_up (done _) = true
is_set_up (raised e) = false

-- At every moment of a run.
abbrev pub always : (Process → Bool) → Process → List Event → Bool
always holds p [] = holds p
always holds p (e ∷ es) = holds p && always holds (after p e) es

abbrev pub last_state : Process → List Event → Process
last_state p [] = p
last_state p (e ∷ es) = last_state (after p e) es

serving_ordered :
    (enabled : Bool) (port : ℕ)
    → let run = serving enabled port in
      (always serves_core idle run ≡ true)
      × ((last_state idle run).grpc_port ≡ 0)
      × ((last_state idle run).channel ≡ enabled && port == 0)
serving_ordered false port = (refl, refl, refl)
serving_ordered true zero = (refl, refl, refl)
serving_ordered true (suc port) = (ground arith, ground arith, ground arith)

-- At every moment of the process's life an open gRPC port has a channel to the core behind it: the
-- port opens after the channel and closes before it. In the end both are closed, but where the port
-- was asked for and the system gave none: then the start fails with the channel left open. Settings
-- of the traces that are refused end the start before there is a channel.
pub lifespan_ordered :
    (traces : TraceSettings) (enabled : Bool) (port : ℕ)
    → let run = lifespan traces enabled port in
      (always serves_core idle run ≡ true)
      × ((last_state idle run).grpc_port ≡ 0)
      × ((last_state idle run).channel ≡ is_set_up (setup traces) && (enabled && port == 0))
unfolding lifespan
lifespan_ordered traces enabled port = elim (Result-cases (setup traces)) [
  | inl (provider, given) ↦
      let (served, quiet, channel) = serving_ordered enabled port in
      ground (arith, given, served, quiet, channel)
  | inr (e, refused) ↦ ground (arith, refused)
]
