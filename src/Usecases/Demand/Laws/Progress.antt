-- ===== src/Usecases/Demand/Laws/Progress.antt =====
-- The derived fields of `_demand`.
use dop_api.Base.{
  sym, ◌∙◌, ℕ, String, Bool, true, false, List, [], ◌∷◌, ◌++◌, map, not, ◌&&◌, ◌||◌, ◌==◌, nat_eq,
  string_eq, any, find_first, All, ◌≡◌, ◌⊎◌, inl, inr, refl, arith, Bool-cases,
}
use dop_api.Base.Table.{name_of, name_of-beq}
use dop_api.Usecases.Demand.Views.{stage_by_enum, stage_of, awaits_decision, key_of, demand_of}
use dop_api.Usecases.Demand.Messages.{PbDemandStage, PbDemand}
use dop_api.Usecases.Demand.Models.{Stage}
use dop_api.Usecases.Workflow.{gate_by_enum}

-- The core's number of a finished stage.
abbrev pub is_done : PbDemandStage → Bool
is_done s = s.status == 4

-- Where the demand is: at a stage that is not finished while all before it are, or past the last.
pub record IsAt (stages : List PbDemandStage) (key : String) : Type 0 where
  pub before : List PbDemandStage
  pub here : PbDemandStage
  pub after : List PbDemandStage
  pub order : stages ≡ before ++ here ∷ after
  pub finished : All (λ s. is_done s ≡ true) before
  pub unfinished : is_done here ≡ false
  pub name : key ≡ here.key

status-done : (n : ℕ) → (name_of stage_by_enum n == "done") ≡ (n == 4)
status-done n = name_of-beq stage_by_enum n "done" refl refl refl

status-blocked : (n : ℕ) → (name_of stage_by_enum n == "blocked") ≡ (n == 3)
status-blocked n = name_of-beq stage_by_enum n "blocked" refl refl refl

abbrev current : List PbDemandStage → String
current stages = key_of (find_first (λ (e : Stage). not (e.status == "done")) (map stage_of stages))

current-IsAt :
    (stages : List PbDemandStage)
    → IsAt stages (current stages) ⊎ (All (λ s. is_done s ≡ true) stages × (current stages ≡ ""))
current-IsAt [] = inr (tt, refl)
current-IsAt (s ∷ ss) = elim (Bool-cases (is_done s)) [
  | inr open_here ↦ inl (record {
    before = [];
    here = s;
    after = ss;
    order = refl;
    finished = tt;
    unfinished = open_here;
    name = ground (arith, status-done s.status);
  })
  | inl closed ↦
      let same : current (s ∷ ss) ≡ current ss = ground (arith, status-done s.status) in
      elim (current-IsAt ss) [
        | inl at ↦ inl (record {
          before = s ∷ at.before;
          here = at.here;
          after = at.after;
          order = ground (arith, at.order);
          finished = (closed, at.finished);
          unfinished = at.unfinished;
          name = same ∙ at.name;
        })
        | inr (all_closed, empty) ↦ inr ((closed, all_closed), same ∙ empty)
      ]
]

-- The current stage is the first, in the flow's order, that is not finished; the key is empty if
-- all are finished.
pub demand_of-IsAt :
    (d : PbDemand)
    → IsAt d.stages (demand_of d).current_stage_key
      ⊎ (All (λ s. is_done s ≡ true) d.stages × ((demand_of d).current_stage_key ≡ ""))
unfolding demand_of
demand_of-IsAt d = current-IsAt d.stages

any_stage :
    (p : Stage → Bool) (q : PbDemandStage → Bool)
    → ((s : PbDemandStage) → p (stage_of s) ≡ q s)
    → (ss : List PbDemandStage) → any p (map stage_of ss) ≡ any q ss
any_stage p q same [] = refl
any_stage p q same (s ∷ ss) = ground (arith, same s, any_stage p q same ss)

-- The screen's reading, in the edge's words: a human gate on a running or a blocked stage.
abbrev pub asks_human : Stage → Bool
asks_human e = e.gate == "human" && (e.status == "running" || e.status == "blocked")

asks_human-stage_of : (s : PbDemandStage) → asks_human (stage_of s) ≡ awaits_decision s
asks_human-stage_of s = ground (
  arith,
  name_of-beq gate_by_enum s.gate "human" refl refl refl,
  name_of-beq stage_by_enum s.status "running" refl refl refl,
  status-blocked s.status,
)

-- A demand is blocked exactly if the core has a stage blocked, and awaits a decision exactly if
-- one of its stages does; a client that reads the stages' words comes to the same answer.
demand_of_flags :
    (d : PbDemand)
    → ((demand_of d).blocked ≡ any (λ (s : PbDemandStage). s.status == 3) d.stages)
      × ((demand_of d).awaiting_decision ≡ any awaits_decision d.stages)
      × ((demand_of d).awaiting_decision ≡ any asks_human (demand_of d).stages)
unfolding demand_of
demand_of_flags d = (
  any_stage (λ e. e.status == "blocked") (λ s. s.status == 3) (λ s. status-blocked s.status)
      d.stages,
  any_stage (λ e. e.awaiting_decision) awaits_decision (λ s. refl) d.stages,
  any_stage (λ e. e.awaiting_decision) awaits_decision (λ s. refl) d.stages
      ∙ sym (any_stage asks_human awaits_decision asks_human-stage_of d.stages),
)
