-- ===== src/Usecases/Attention/Laws.antt =====
-- The groups of the box are the queue itself, cut by demand.
use dop_api.Base.{
  append_assoc, Bool-cases, inl, inr, ◌∙◌, ap, sym, refl, ◌≡◌, String, Bool, List, [], ◌∷◌, ◌++◌,
  ◌==◌, nat_eq, string_eq, select, is_in, arith, eq_iff, if◌then◌else◌,
}
use dop_api.Usecases.Attention.{
  AttentionItem, AttentionGroup, add_item, group_from, group_by_demand,
}

-- The items of a demand's group, or none if it has no group.
abbrev pub items_in : String → List AttentionGroup → List AttentionItem
items_in k [] = []
items_in k (g ∷ gs) = if g.demand_id == k then g.items else items_in k gs

abbrev pub keys : List AttentionGroup → List String
keys [] = []
keys (g ∷ gs) = g.demand_id ∷ keys gs

abbrev pub demands : List AttentionItem → List String
demands [] = []
demands (i ∷ is) = i.demand_id ∷ demands is

-- The texts of a list that are not among those seen, each where it stands first.
abbrev pub first_seen : List String → List String → List String
first_seen seen [] = []
first_seen seen (k ∷ ks) =
    let known = first_seen seen ks in
    let fresh = first_seen (seen ++ (k ∷ [])) ks in if is_in k seen then known else k ∷ fresh

abbrev pub belongs : String → AttentionItem → Bool
belongs k i = i.demand_id == k

append_nil {ℓ} : {A : Type ℓ} (xs : List A) → xs ++ [] ≡ xs
append_nil [] = refl
append_nil (x ∷ xs) = ap (λ r. x ∷ r) (append_nil xs)

items_in-add_item :
    (k : String) (i : AttentionItem) (gs : List AttentionGroup)
    → items_in k (add_item i gs)
      ≡ (if belongs k i then items_in k gs ++ (i ∷ []) else items_in k gs)
unfolding add_item
items_in-add_item k i [] = ground arith
items_in-add_item k i (g ∷ gs) = ground (
  arith,
  items_in-add_item k i gs,
  eq_iff g.demand_id i.demand_id,
  eq_iff g.demand_id k,
  eq_iff i.demand_id k,
)

items_in-group_from :
    (k : String) (gs : List AttentionGroup) (is : List AttentionItem)
    → items_in k (group_from gs is) ≡ items_in k gs ++ select (belongs k) is
unfolding group_from
items_in-group_from k gs [] = sym (append_nil (items_in k gs))
items_in-group_from k gs (i ∷ is) = ground (
  arith,
  items_in-group_from k (add_item i gs) is,
  items_in-add_item k i gs,
  append_assoc (items_in k gs) (i ∷ []) (select (belongs k) is),
)

keys-add_item :
    (i : AttentionItem) (gs : List AttentionGroup)
    → keys (add_item i gs)
      ≡ (if is_in i.demand_id (keys gs) then keys gs else keys gs ++ (i.demand_id ∷ []))
unfolding add_item
keys-add_item i [] = ground arith
keys-add_item i (g ∷ gs) =
    ground
      (arith, keys-add_item i gs, eq_iff g.demand_id i.demand_id, eq_iff i.demand_id g.demand_id)

keys-group_from :
    (gs : List AttentionGroup) (is : List AttentionItem)
    → keys (group_from gs is) ≡ keys gs ++ first_seen (keys gs) (demands is)
unfolding group_from
keys-group_from gs [] = sym (append_nil (keys gs))
keys-group_from gs (i ∷ is) =
    let next = keys-group_from (add_item i gs) is in
    elim (Bool-cases (is_in i.demand_id (keys gs))) [
      | inl known ↦
          let same : keys (add_item i gs) ≡ keys gs = ground (arith, keys-add_item i gs) in
          rw known (next ∙ ap (λ ks. ks ++ first_seen ks (demands is)) same)
      | inr fresh ↦
          let same : keys (add_item i gs) ≡ keys gs ++ (i.demand_id ∷ []) =
            ground (arith, keys-add_item i gs) in
          rw fresh (
            next
            ∙ ap (λ ks. ks ++ first_seen ks (demands is)) same
            ∙ append_assoc (keys gs) (i.demand_id ∷ [])
                (first_seen (keys gs ++ (i.demand_id ∷ [])) (demands is)))
    ]

-- The groups stand in the order in which their demands appear first in the queue, one for each
-- demand and no other, and the group of a demand holds that demand's items in the queue's order.
pub group_by_demand-ordered :
    (items : List AttentionItem)
    → (keys (group_by_demand items) ≡ first_seen [] (demands items))
      × ((k : String) → items_in k (group_by_demand items) ≡ select (belongs k) items)
unfolding group_by_demand
group_by_demand-ordered items = (keys-group_from [] items, λ k. items_in-group_from k [] items)
