-- ===== src/Grpcapi/Attention.antt =====
-- app/grpcapi/attention.py: the attention box on the gRPC port.
use dop_api.Base.{ℕ, String, Bool, Option, List, [], ◌∷◌, map, nat_eq, string_eq}
use dop_api.Base.Table.{Table, value_of}
use dop_api.Platform.Edge.{Edge, ◌>>=◌, pure}
use dop_api.Coreclient.Client.{Rpc, Outside}
use dop_api.Usecases.Attention.{
  AttentionItem, AttentionGroup, AttentionBox, AttentionUpdate, PbAttentionUpdate,
  ListAttentionRequest, ListAttentionResponse, list_attention, watch_attention,
}
use dop_api.Usecases.Stream.{StreamRpc}
use dop_api.Grpcapi.Interceptors.Streams.{Generator, behind}
use dop_api.Grpcapi.Stream.{yielding}

-- The messages of app/grpcapi/gen/dop/bff/v1/attention_pb2.pyi.
pub record BffAttentionItem : Type 0 where
  pub id : String
  pub kind : ℕ
  pub target_kind : String
  pub target_id : String
  pub demand_id : String
  pub title : String
  pub summary : String
  pub priority : ℕ
  pub opened_at : Option ℕ
  pub resolved_at : Option ℕ

pub record BffAttentionGroup : Type 0 where
  pub demand_id : String
  pub items : List BffAttentionItem

pub record BffAttentionBox : Type 0 where
  pub items : List BffAttentionItem
  pub groups : List BffAttentionGroup
  pub open_total : ℕ

pub record BffAttentionUpdate : Type 0 where
  pub change : ℕ
  pub item : BffAttentionItem

abbrev pub enum_by_kind : Table
enum_by_kind =
    (1, "thread_blocked")
    ∷ (2, "gate_pending")
    ∷ (3, "pr_review")
    ∷ (4, "merge_conflict")
    ∷ (5, "directive")
    ∷ (6, "budget_exceeded")
    ∷ (7, "integration_broken")
    ∷ (8, "contact_phone_unverified")
    ∷ []

abbrev pub enum_by_change : Table
enum_by_change = (1, "opened") ∷ (2, "resolved") ∷ []

-- `_item`.
unfoldable pub item_message : AttentionItem → BffAttentionItem
item_message i = record {
  id = i.id;
  kind = value_of enum_by_kind i.kind;
  target_kind = i.target_kind;
  target_id = i.target_id;
  demand_id = i.demand_id;
  title = i.title;
  summary = i.summary;
  priority = i.priority;
  opened_at = i.opened_at;
  resolved_at = i.resolved_at;
}

abbrev pub group_message : AttentionGroup → BffAttentionGroup
group_message g = record { demand_id = g.demand_id; items = map item_message g.items }

abbrev pub box_message : AttentionBox → BffAttentionBox
box_message box = record {
  items = map item_message box.items;
  groups = map group_message box.groups;
  open_total = box.open_total;
}

-- The message has no place for the update's id.
unfoldable pub update_message : AttentionUpdate → BffAttentionUpdate
update_message u = record { change = value_of enum_by_change u.change; item = item_message u.item }

module _ {W : Type 0} (out : Outside W) where
  unfoldable pub list_attention_rpc :
      Rpc W ListAttentionRequest ListAttentionResponse → Bool → String → ℕ → Edge W BffAttentionBox
  list_attention_rpc stub_list include_resolved demand_id page_size = do
    box ← list_attention out stub_list include_resolved demand_id page_size
    pure (box_message box)

  unfoldable pub watch_attention_rpc :
      StreamRpc W String PbAttentionUpdate → String → Generator W BffAttentionUpdate
  watch_attention_rpc watch since_event_id =
      behind (watch_attention out watch since_event_id) (yielding update_message)
