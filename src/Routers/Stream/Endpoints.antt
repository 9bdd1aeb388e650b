-- ===== src/Routers/Stream/Endpoints.antt =====
-- app/routers/stream.py: the three endpoints. What `model_dump` gives is the fields in their order; the
-- text of a date is a parameter.
pub mod Laws
use dop_api.Base.{ℕ, String, Option, none, some, List, map, nat_eq, string_eq}
use dop_api.Platform.Json.{Json, Fields}
use dop_api.Platform.Edge.{Edge, ◌>>=◌, pure}
use dop_api.Coreclient.Client.{Outside}
use dop_api.Usecases.Stream.Yields.{Source}
use dop_api.Usecases.Stream.{
  StreamEvent, LogLine, StreamLogsRequest, StreamStub, watch_account_events, watch_demand,
  tail_sandbox_logs,
}
use dop_api.Routers.Stream.{ServerSentEvent, cursor, sse_events}

abbrev pub date_json : (ℕ → String) → Option ℕ → Json
date_json str none = Json.null
date_json str (some t) = Json.text (str t)

-- `item.model_dump()`, as `_json` writes it.
abbrev pub dump_event : (ℕ → String) → StreamEvent → Fields
dump_event str e = Fields.field "id" (Json.text e.id) (
    Fields.field "type" (Json.text e.type) (
      Fields.field "aggregate" (Json.text e.aggregate) (
        Fields.field "aggregate_id" (Json.text e.aggregate_id) (
          Fields.field "payload" (Json.dict e.payload)
            (Fields.field "occurred_at" (date_json str e.occurred_at) Fields.end)))))

abbrev pub dump_line : (ℕ → String) → LogLine → Fields
dump_line str l = Fields.field "source" (Json.text l.source) (
    Fields.field "service" (Json.text l.service)
      (Fields.field "line" (Json.text l.line) (Fields.field "at" (date_json str l.at) Fields.end)))

-- `_response`.
abbrev pub response : {A : Type 0} → ℕ → String → (A → Fields) → Source A → List ServerSentEvent
response retry_ms name dump (items, ending) = sse_events retry_ms name (map dump items) ending

module _ {W : Type 0} (out : Outside W) (stub : StreamStub W) (retry_ms : ℕ)
    (str : ℕ → String) where
  unfoldable pub stream_account_events :
      Option (List String) → Option (List String) → String → String → Edge W (List ServerSentEvent)
  stream_account_events aggregate types since_event_id last_event_id = do
    source ← watch_account_events out stub (cursor last_event_id since_event_id) aggregate types
    pure (response retry_ms "event" (dump_event str) source)

  unfoldable pub stream_demand : String → Edge W (List ServerSentEvent)
  stream_demand demand_id = do
    source ← watch_demand out stub demand_id
    pure (response retry_ms "event" (dump_event str) source)

  unfoldable pub stream_sandbox_logs : StreamLogsRequest → Edge W (List ServerSentEvent)
  stream_sandbox_logs request = do
    source ← tail_sandbox_logs out stub request
    pure (response retry_ms "log" (dump_line str) source)
