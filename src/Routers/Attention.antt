-- ===== src/Routers/Attention.antt =====
-- app/routers/attention.py: the box, and the box live. The second has the frames of the child Stream,
-- under a name of its own; the id of a frame is that of the event behind the update.
use dop_api.Base.{ℕ, String, Bool, List}
use dop_api.Platform.Json.{Json, Fields}
use dop_api.Platform.Edge.{Edge, ◌>>=◌, pure}
use dop_api.Base.Int.{pos}
use dop_api.Usecases.Stream.{StreamRpc}
use dop_api.Coreclient.Client.{Outside, Rpc}
use dop_api.Usecases.Attention.{
  AttentionItem, AttentionUpdate, AttentionBox, ListAttentionRequest, ListAttentionResponse,
  PbAttentionUpdate,
}
use dop_api.Usecases.Attention
use dop_api.Routers.Stream.{ServerSentEvent, cursor}
use dop_api.Routers.Stream.Endpoints.{date_json, response}

-- `item.model_dump()` of an update, as `_json` writes it.
abbrev pub dump_item : (ℕ → String) → AttentionItem → Fields
dump_item str i = Fields.field "id" (Json.text i.id) (
    Fields.field "kind" (Json.text i.kind) (
      Fields.field "target_kind" (Json.text i.target_kind) (
        Fields.field "target_id" (Json.text i.target_id) (
          Fields.field "demand_id" (Json.text i.demand_id) (
            Fields.field "title" (Json.text i.title) (
              Fields.field "summary" (Json.text i.summary) (
                Fields.field "priority" (Json.num (pos i.priority)) (
                  Fields.field "opened_at" (date_json str i.opened_at)
                    (Fields.field "resolved_at" (date_json str i.resolved_at) Fields.end)))))))))

abbrev pub dump_update : (ℕ → String) → AttentionUpdate → Fields
dump_update str u = Fields.field "change" (Json.text u.change) (
    Fields.field "id" (Json.text u.id)
      (Fields.field "item" (Json.dict (dump_item str u.item)) Fields.end))

module _ {W : Type 0} (out : Outside W)
    (stub_list : Rpc W ListAttentionRequest ListAttentionResponse) where
  unfoldable pub list_attention : Bool → String → ℕ → Edge W AttentionBox
  list_attention include_resolved demand_id page_size =
      Attention.list_attention out stub_list include_resolved demand_id page_size

module _ {W : Type 0} (out : Outside W) (watch : StreamRpc W String PbAttentionUpdate)
    (retry_ms : ℕ) (str : ℕ → String) where
  unfoldable pub stream_attention : String → String → Edge W (List ServerSentEvent)
  stream_attention since_event_id last_event_id = do
    source ← Attention.watch_attention out watch (cursor last_event_id since_event_id)
    pure (response retry_ms "attention" (dump_update str) source)
