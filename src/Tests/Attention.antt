-- ===== src/Tests/Attention.antt =====
-- The theorem about the attention box at a concrete queue.
use dop_api.Base.{◌≡◌, String, List, [], ◌∷◌, nat_eq, string_eq, select}
use dop_api.Usecases.Attention.{AttentionItem, empty_item, group_by_demand}
use dop_api.Usecases.Attention.Laws.{
  items_in, keys, demands, first_seen, belongs, group_by_demand-ordered,
}

abbrev item : String → String → AttentionItem
item id demand_id = record empty_item { id = id; demand_id = demand_id }

abbrev queue : List AttentionItem
queue = item "a" "d1" ∷ item "b" "" ∷ item "c" "d1" ∷ []

group_by_demand-ordered_example :
    (keys (group_by_demand queue) ≡ first_seen [] (demands queue))
    × ((k : String) → items_in k (group_by_demand queue) ≡ select (belongs k) queue)
group_by_demand-ordered_example = group_by_demand-ordered queue
