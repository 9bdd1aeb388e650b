-- ===== src/Grpcapi/Stream.antt =====
-- app/grpcapi/stream.py: the streams on the gRPC port. A method is a generator: opening the use case is
-- its first step, and a refusal there is its exception, before any item.
use dop_api.Base.{ℕ, String, Option, none, some, nat_eq, string_eq}
use dop_api.Platform.Json.{Fields}
use dop_api.Coreclient.Client.{Outside}
use dop_api.Usecases.Stream.Yields.{Source}
use dop_api.Usecases.Stream.{
  StreamEvent, LogLine, WatchEventsRequest, StreamLogsRequest, StreamStub, relayed,
  watch_account_events, watch_demand, tail_sandbox_logs,
}
use dop_api.Grpcapi.Interceptors.Streams.{Generator, behind}

-- `StreamEvent` of app/grpcapi/gen/dop/bff/v1/stream_pb2.pyi, with submessages that may be absent.
pub record BffStreamEvent : Type 0 where
  pub id : String
  pub type : String
  pub aggregate : String
  pub aggregate_id : String
  pub payload : Option Fields
  pub occurred_at : Option ℕ

abbrev pub set_payload : Fields → Option Fields
set_payload Fields.end = none
set_payload (Fields.field k v fs) = some (Fields.field k v fs)

-- `_event`.
abbrev pub event_message : StreamEvent → BffStreamEvent
event_message e = record {
  id = e.id;
  type = e.type;
  aggregate = e.aggregate;
  aggregate_id = e.aggregate_id;
  payload = set_payload e.payload;
  occurred_at = e.occurred_at;
}

-- `async for item in source: yield message(item)`.
abbrev pub yielding : {W A B : Type 0} → (A → B) → Source A → Generator W B
yielding message source s w = (relayed message source, w)

module _ {W : Type 0} (out : Outside W) (stub : StreamStub W) where
  unfoldable pub watch_events_rpc : WatchEventsRequest → Generator W BffStreamEvent
  watch_events_rpc request =
      behind
        (watch_account_events out stub request.since_event_id (some request.aggregate)
          (some request.types))
        (yielding event_message)

  unfoldable pub watch_demand_rpc : String → Generator W BffStreamEvent
  watch_demand_rpc demand_id = behind (watch_demand out stub demand_id) (yielding event_message)

  -- A line has the same fields as its message.
  unfoldable pub tail_logs_rpc : StreamLogsRequest → Generator W LogLine
  tail_logs_rpc request = behind (tail_sandbox_logs out stub request) (yielding (λ l. l))
