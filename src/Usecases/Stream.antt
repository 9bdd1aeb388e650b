-- ===== src/Usecases/Stream.antt =====
-- app/usecases/stream.py: the streams of the core as streams of the edge's models. The call that a
-- method opens stands as what it gives, a source; the generator over it is the child Pump. An instant
-- is in microseconds, a `Struct` the dictionary that it is converted to.
pub mod Yields
pub mod Pump
use dop_api.Base.{
  ℕ, String, Option, none, some, List, [], map, nat_eq, string_eq, or_else, if◌then◌else◌,
}
use dop_api.Platform.Json.{Fields}
use dop_api.Platform.Errors.{done}
use dop_api.Platform.Edge.{Edge, ◌>>=◌}
use dop_api.Platform.Decorator.{account_scoped}
use dop_api.Coreclient.Client.{Outside, Metadata, metadata}
use Yields.{Source}

pub record StreamEvent : Type 0 where
  pub id : String
  pub type : String
  pub aggregate : String
  pub aggregate_id : String
  pub payload : Fields
  pub occurred_at : Option ℕ

pub record LogLine : Type 0 where
  pub source : String
  pub service : String
  pub line : String
  pub at : Option ℕ

-- `EventEnvelope` of event_pb2.pyi, `DemandEvent` of demand_pb2.pyi and `LogLine` of execution_pb2.pyi.
pub record EventEnvelope : Type 0 where
  pub id : String
  pub type : String
  pub aggregate : String
  pub aggregate_id : String
  pub payload : Option Fields
  pub occurred_at : Option ℕ

pub record DemandEvent : Type 0 where
  pub type : String
  pub aggregate : String
  pub payload : Option Fields
  pub at : Option ℕ

pub record PbLogLine : Type 0 where
  pub source : String
  pub service : String
  pub line : String
  pub at : Option ℕ

pub record WatchEventsRequest : Type 0 where
  pub aggregate : List String
  pub types : List String
  pub since_event_id : String

pub record StreamLogsRequest : Type 0 where
  pub sandbox_id : String
  pub source : String
  pub service : String
  pub test_type : String

-- A method that streams: it opens a call.
abbrev pub StreamRpc : Type 0 → Type 0 → Type 0 → Type 0
StreamRpc W Q M = Metadata → Q → W → Source M × W

pub record StreamStub (W : Type 0) : Type 0 where
  pub watch_events : StreamRpc W WatchEventsRequest EventEnvelope
  pub watch_demand : StreamRpc W String DemandEvent
  pub stream_logs : StreamRpc W StreamLogsRequest PbLogLine

-- `_payload`.
abbrev pub payload_of : Option Fields → Fields
payload_of none = Fields.end
payload_of (some fields) = fields

-- `_event`.
abbrev pub event_of : EventEnvelope → StreamEvent
event_of env = record {
  id = env.id;
  type = env.type;
  aggregate = env.aggregate;
  aggregate_id = env.aggregate_id;
  payload = payload_of env.payload;
  occurred_at = env.occurred_at;
}

-- `_demand_event`.
abbrev pub demand_event : String → DemandEvent → StreamEvent
demand_event demand_id ev = record {
  id = "";
  type = ev.type;
  aggregate = or_else ev.aggregate "demand";
  aggregate_id = demand_id;
  payload = payload_of ev.payload;
  occurred_at = ev.at;
}

-- `_log_line`.
abbrev pub log_line : PbLogLine → LogLine
log_line ll = record { source = ll.source; service = ll.service; line = ll.line; at = ll.at }

-- `names or []`.
abbrev pub or_none_given : Option (List String) → List String
or_none_given none = []
or_none_given (some xs) = xs

-- The call's source, translated by the generator.
abbrev pub relayed : {M A : Type 0} → (M → A) → Source M → Source A
relayed translate (ms, ending) = (map translate ms, ending)

-- `_pump(stub.Method(request, metadata=core.metadata()), translate)`: without a deadline.
unfoldable pub watched :
    {W Q M A : Type 0} → Outside W → StreamRpc W Q M → Q → (M → A) → Edge W (Source A)
watched out rpc request translate = do
  md ← metadata out
  λ s w. let (source, w') = rpc md request w in (done (relayed translate source), w')

module _ {W : Type 0} (out : Outside W) (stub : StreamStub W) where
  unfoldable pub watch_account_events :
      String → Option (List String) → Option (List String) → Edge W (Source StreamEvent)
  unfolding watched
  watch_account_events since_event_id aggregate types = account_scoped (
      watched out stub.watch_events
        (record {
          aggregate = or_none_given aggregate;
          types = or_none_given types;
          since_event_id = since_event_id;
        })
        event_of)

  unfoldable pub watch_demand : String → Edge W (Source StreamEvent)
  unfolding watched
  watch_demand demand_id =
      account_scoped (watched out stub.watch_demand demand_id (demand_event demand_id))

  unfoldable pub tail_sandbox_logs : StreamLogsRequest → Edge W (Source LogLine)
  unfolding watched
  tail_sandbox_logs request = account_scoped (watched out stub.stream_logs request log_line)
