-- ===== src/Usecases/Attention.antt =====
-- app/usecases/attention.py: the box of items that want a decision, and its groups. An instant is
-- in microseconds.
pub mod Laws
use dop_api.Base.{
  ℕ, ◌+◌, String, Bool, Option, none, some, List, [], ◌∷◌, ◌++◌, map, ◌==◌, nat_eq, string_eq,
  is_empty, or_text, if◌then◌else◌,
}
use dop_api.Base.Table.{Table, name_of}
use dop_api.Platform.Edge.{Edge, ◌>>=◌, pure}
use dop_api.Platform.Decorator.{account_scoped}
use dop_api.Usecases.Stream.Yields.{Source}
use dop_api.Usecases.Stream.{StreamRpc, watched}
use dop_api.Coreclient.Client.{Outside, Rpc, call}

-- `AttentionItem` of attention_pb2.pyi; `demand` is a submessage, by its id.
pub record PbAttentionItem : Type 0 where
  pub id : String
  pub kind : ℕ
  pub target_kind : String
  pub target_id : String
  pub demand : Option String
  pub title : String
  pub summary : String
  pub priority : ℕ
  pub opened_at : Option ℕ
  pub resolved_at : Option ℕ

pub record AttentionItem : Type 0 where
  pub id : String
  pub kind : String
  pub target_kind : String
  pub target_id : String
  pub demand_id : String
  pub title : String
  pub summary : String
  pub priority : ℕ
  pub opened_at : Option ℕ
  pub resolved_at : Option ℕ

pub record AttentionGroup : Type 0 where
  pub demand_id : String
  pub items : List AttentionItem

pub record AttentionBox : Type 0 where
  pub items : List AttentionItem
  pub groups : List AttentionGroup
  pub open_total : ℕ

pub record AttentionUpdate : Type 0 where
  pub change : String
  pub id : String
  pub item : AttentionItem

pub record PbAttentionUpdate : Type 0 where
  pub change : ℕ
  pub item : Option PbAttentionItem
  pub event_id : String

pub record ListAttentionRequest : Type 0 where
  pub include_resolved : Bool
  pub demand : Option String
  pub size : ℕ

pub record ListAttentionResponse : Type 0 where
  pub items : List PbAttentionItem
  pub open_total : ℕ

abbrev pub kind_by_enum : Table
kind_by_enum =
    (1, "thread_blocked")
    ∷ (2, "gate_pending")
    ∷ (3, "pr_review")
    ∷ (4, "merge_conflict")
    ∷ (5, "directive")
    ∷ (6, "budget_exceeded")
    ∷ (7, "integration_broken")
    ∷ (8, "contact_phone_unverified")
    ∷ []

abbrev pub change_by_enum : Table
change_by_enum = (1, "opened") ∷ (2, "resolved") ∷ []

abbrev pub kind_name : ℕ → String
kind_name = name_of kind_by_enum

-- `_item`.
abbrev pub item_of : PbAttentionItem → AttentionItem
item_of it = record {
  id = it.id;
  kind = kind_name it.kind;
  target_kind = it.target_kind;
  target_id = it.target_id;
  demand_id = or_text it.demand "";
  title = it.title;
  summary = it.summary;
  priority = it.priority;
  opened_at = it.opened_at;
  resolved_at = it.resolved_at;
}

-- `AttentionItem()`.
abbrev pub empty_item : AttentionItem
empty_item = record {
  id = "";
  kind = "";
  target_kind = "";
  target_id = "";
  demand_id = "";
  title = "";
  summary = "";
  priority = 0;
  opened_at = none;
  resolved_at = none;
}

-- `_update`.
abbrev pub update_of : PbAttentionUpdate → AttentionUpdate
update_of u = record {
  change = name_of change_by_enum u.change;
  id = u.event_id;
  item = elim u.item [ none ↦ empty_item | some it ↦ item_of it ];
}

-- One round of `_group_by_demand`'s loop: the item goes to the end of its demand's group, which
-- stands at the end of the `dict` if it is new.
pub add_item : AttentionItem → List AttentionGroup → List AttentionGroup
add_item i [] = record { demand_id = i.demand_id; items = i ∷ [] } ∷ []
add_item i (g ∷ gs) =
    let rest = add_item i gs in
    if g.demand_id == i.demand_id
    then record { demand_id = g.demand_id; items = g.items ++ (i ∷ []) } ∷ gs
    else g ∷ rest

pub group_from : List AttentionGroup → List AttentionItem → List AttentionGroup
group_from gs [] = gs
group_from gs (i ∷ is) = group_from (add_item i gs) is

-- `_group_by_demand`.
pub group_by_demand : List AttentionItem → List AttentionGroup
group_by_demand items = group_from [] items

module _ {W : Type 0} (out : Outside W)
    (stub_list : Rpc W ListAttentionRequest ListAttentionResponse) where
  unfoldable pub list_attention : Bool → String → ℕ → Edge W AttentionBox
  list_attention include_resolved demand_id page_size = account_scoped do
    resp ← call out stub_list (record {
      include_resolved = include_resolved;
      demand = if is_empty demand_id then none else some demand_id;
      size = page_size;
    })
    let items = map item_of resp.items
    pure (record { items = items; groups = group_by_demand items; open_total = resp.open_total })

module _ {W : Type 0} (out : Outside W) (watch : StreamRpc W String PbAttentionUpdate) where
  unfoldable pub watch_attention : String → Edge W (Source AttentionUpdate)
  unfolding watched
  watch_attention since_event_id = account_scoped (watched out watch since_event_id update_of)
