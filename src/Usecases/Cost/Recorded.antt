-- ===== src/Usecases/Cost/Recorded.antt =====
-- What an answer to a recording of consumption says of the budgets.
use dop_api.Usecases.Cost.{
  overrun_notice, budget_view, wanted, usage_event, read_budget, outcome_of, record_usage,
}
use text.Mathlib.TextLemmas.{cons-append}
use dop_api.Base.Int.{pos}
use dop_api.Base.{
  none, some, ap, map, join, ◌<>◌, is_empty, or_else, ◌∙◌, refl, ◌≡◌, inl, inr, String, true, false,
  List, [], ◌∷◌, nat_eq, string_eq, arith, Bool-cases, if◌then◌else◌,
}
use mathlib.Core.Path.{subst}
use dop_api.Platform.Context.{Scope}
use dop_api.Platform.Errors.{done, Result-cases}
use dop_api.Platform.Edge.{for_each}
use dop_api.Platform.Decorator.{account_scoped}
use dop_api.Coreclient.Client.{Outside, Metadata, call, metadata, idempotency}
use dop_api.Usecases.Cost.Models.{
  PbUsageEvent, BudgetView, ScopeRequest, NewUsage, RecordUsageOutcome, PbBudget,
  RecordUsageResponse, CostStub,
}
use dop_api.Usecases.Cost.Laws.{IsRemaining, budget_view-IsRemaining}

-- The budgets, each by its scope.
abbrev pub named : List BudgetView → String
named [] = ""
named (b ∷ []) = b.scope <> ":" <> b.scope_id
named (b ∷ c ∷ bs) = b.scope <> ":" <> b.scope_id <> (", " <> named (c ∷ bs))

abbrev pub IsNotice : List BudgetView → String → Type 0
IsNotice budgets notice = (rest : String) × (notice ≡ "Budget exceeded (" <> named budgets <> rest)

-- A budget is shown with the core's own sums.
pub record IsView (b : PbBudget) (v : BudgetView) : Type 0 where
  pub scope : v.scope ≡ b.scope
  pub scope_id : v.scope_id ≡ b.scope_id
  pub limit : v.limit ≡ record { currency = b.currency; amount_micros = b.limit_micros }
  pub spent : v.spent ≡ record { currency = b.currency; amount_micros = b.spent_micros }
  pub remaining : IsRemaining b.currency b.limit_micros b.spent_micros v.remaining

budget_view-IsView : (b : PbBudget) → IsView b (budget_view b)
unfolding budget_view
budget_view-IsView b = record {
  scope = refl;
  scope_id = refl;
  limit = refl;
  spent = refl;
  remaining = budget_view-IsRemaining b;
}

-- The scopes that an overrun may concern.
abbrev pub concerned : String → List ScopeRequest
concerned demand_id =
    let whole : List ScopeRequest = record { scope = "account"; scope_id = "" } ∷ [] in
    if is_empty demand_id then whole else record { scope = "demand"; scope_id = demand_id } ∷ whole

module _ {W : Type 0} (stub : CostStub W) where
  -- One after the other the scopes were asked for, and the core's answers are shown.
  abbrev pub AreRead : List ScopeRequest → List BudgetView → W → W → Type 0
  AreRead [] views v v' = (views ≡ []) × (v' ≡ v)
  AreRead (q ∷ qs) views v v' =
      (md : Metadata) × (asked : W) × (answered : W) × (b : PbBudget) × (view : BudgetView)
      × (others : List BudgetView) × (stub.get_budget md q asked ≡ (done b, answered))
      × IsView b view
      × (views ≡ view ∷ others)
      × AreRead qs others answered v'

-- What is sent of a consumption, with its demand if it names one.
pub record IsOwn (body : NewUsage) (u : PbUsageEvent) : Type 0 where
  pub model : u.model ≡ body.model
  pub thread_id : u.thread_id ≡ body.thread_id
  pub demand : u.demand ≡ (if is_empty body.demand_id then none else some body.demand_id)
  pub input_tokens : u.input_tokens ≡ body.input_tokens
  pub output_tokens : u.output_tokens ≡ body.output_tokens
  pub cache_read_tokens : u.cache_read_tokens ≡ body.cache_read_tokens
  pub cache_creation_tokens : u.cache_creation_tokens ≡ body.cache_creation_tokens
  pub cost : u.cost ≡ record { currency = body.currency; amount_micros = pos body.cost_micros }

is_empty-append : (s t : String) → is_empty s ≡ false → is_empty (s <> t) ≡ false
is_empty-append String.[] t h = absurd (ground arith)
is_empty-append (String.◌∷◌ c s) t h = rw cons-append refl

is_empty-end : (s : String) → is_empty (s <> ":") ≡ false
is_empty-end String.[] = refl
is_empty-end (String.◌∷◌ c s) = rw cons-append refl

is_empty-colon : (s t : String) → is_empty (s <> ":" <> t) ≡ false
is_empty-colon s t = is_empty-append (s <> ":") t (is_empty-end s)

join-named :
    (bs : List BudgetView)
    → join ", " (map (λ (b : BudgetView). b.scope <> ":" <> b.scope_id) bs) ≡ named bs
join-named [] = refl
join-named (b ∷ []) = refl
join-named (b ∷ c ∷ bs) =
    ap (λ r. b.scope <> ":" <> b.scope_id <> (", " <> r)) (join-named (c ∷ bs))

is_empty-named : (b : BudgetView) (bs : List BudgetView) → is_empty (named (b ∷ bs)) ≡ false
is_empty-named b [] = is_empty-colon b.scope b.scope_id
is_empty-named b (c ∷ bs) =
    is_empty-append (b.scope <> ":" <> b.scope_id) (", " <> named (c ∷ bs))
      (is_empty-colon b.scope b.scope_id)

named_targets :
    (b : BudgetView) (bs : List BudgetView)
    → or_else
        (join ", " (map (λ (b : BudgetView). b.scope <> ":" <> b.scope_id) (b ∷ bs)))
        "the active account"
      ≡ named (b ∷ bs)
named_targets b bs =
    ap (λ t. or_else t "the active account") (join-named (b ∷ bs))
    ∙ ap (λ e. if e then "the active account" else named (b ∷ bs)) (is_empty-named b bs)

abbrev whole_rest : String
whole_rest =
    "). The demand PAUSES and becomes an item in the attention box (ADR-0008 §2): it is not cut off halfway nor does it keep burning. A human decides — raise the ceiling, cut scope or close it. Consumption keeps being measured meanwhile."

overrun_notice-IsNotice : (bs : List BudgetView) → IsNotice bs (overrun_notice bs)
overrun_notice-IsNotice [] = ("the active account" <> whole_rest, refl)
overrun_notice-IsNotice (b ∷ bs) =
    (whole_rest, ap (λ targets. "Budget exceeded (" <> targets <> whole_rest) (named_targets b bs))

module _ {W : Type 0} (out : Outside W) (stub : CostStub W) (s : Scope) (w : W) where
  for_each-AreRead :
      (qs : List ScopeRequest) (views : List BudgetView) (v v' : W)
      → for_each (read_budget out stub) qs s v ≡ (done views, v')
      → AreRead stub qs views v v'
  unfolding for_each call
  for_each-AreRead [] views v v' e = (ground arith, ground arith)
  for_each-AreRead (q ∷ qs) views v v' e =
      let carrying = metadata out s v in
      elim (Result-cases carrying.0) [
        | inr (exc, failed) ↦ absurd (ground arith)
        | inl (md, made) ↦
            let asking = stub.get_budget md q carrying.1 in
            elim (Result-cases asking.0) [
              | inr (exc, failed) ↦ absurd (ground arith)
              | inl (b, came) ↦
                  let tail = for_each (read_budget out stub) qs s asking.1 in
                  elim (Result-cases tail.0) [
                    | inr (exc, failed) ↦ absurd (ground arith)
                    | inl (others, got) ↦ (
                      md,
                      carrying.1,
                      asking.1,
                      b,
                      budget_view b,
                      others,
                      ground arith,
                      budget_view-IsView b,
                      ground arith,
                      for_each-AreRead qs others asking.1 v' (ground arith),
                    )
                  ]
            ]
      ]

  outcome_of-done :
      (demand_id : String) (resp : RecordUsageResponse) (v : W) (o : RecordUsageOutcome) (w' : W)
      → outcome_of out stub demand_id resp s v ≡ (done o, w')
      → (o.recorded ≡ resp.recorded)
        × (o.budget_exceeded ≡ resp.budget_exceeded)
        × (resp.budget_exceeded ≡ false → (o.notice ≡ "") × (o.budgets ≡ []) × (w' ≡ v))
        × (resp.budget_exceeded ≡ true
            → AreRead stub (concerned demand_id) o.budgets v w' × IsNotice o.budgets o.notice)
  unfolding outcome_of
  outcome_of-done demand_id resp v o w' e = elim (Bool-cases resp.budget_exceeded) [
    | inr within ↦ (
      ground arith,
      ground arith,
      λ _. (ground arith, ground arith, ground arith),
      λ exceeded. absurd (ground arith),
    )
    | inl exceeded ↦
        let reads = for_each (read_budget out stub) (wanted demand_id) s v in
        elim (Result-cases reads.0) [
          | inr (exc, failed) ↦ absurd (ground arith)
          | inl (views, got) ↦ (
            ground arith,
            ground arith,
            λ within. absurd (ground arith),
            λ _.
                let read = for_each-AreRead (wanted demand_id) views v reads.1 (ground arith) in
                let same_views : views ≡ o.budgets = ground arith in
                let same_world : reads.1 ≡ w' = ground arith in
                let worded : overrun_notice views ≡ o.notice = ground arith in
                (
                  subst (λ u. AreRead stub (concerned demand_id) o.budgets v u) same_world
                      (subst (λ vs. AreRead stub (concerned demand_id) vs v reads.1) same_views
                        read),
                  subst (IsNotice o.budgets) worded (
                      subst (λ vs. IsNotice vs (overrun_notice views)) same_views
                        (overrun_notice-IsNotice views)),
                ),
          )
        ]
  ]

  -- The call by which consumption was recorded, and what was answered to it.
  pub record IsRecorded (body : NewUsage) (o : RecordUsageOutcome) (w' : W) : Type 0 where
    pub md : Metadata
    pub key : String
    pub before : W
    pub resp : RecordUsageResponse
    pub after : W
    pub usage : PbUsageEvent
    pub own : IsOwn body usage
    pub sent :
        stub.record_usage md (record { usage = usage; idempotency_key = key }) before
        ≡ (done resp, after)
    pub recorded : o.recorded ≡ resp.recorded
    pub exceeded : o.budget_exceeded ≡ resp.budget_exceeded
    pub within : resp.budget_exceeded ≡ false → (o.notice ≡ "") × (o.budgets ≡ []) × (w' ≡ after)
    pub overrun :
        resp.budget_exceeded ≡ true
        → AreRead stub (concerned body.demand_id) o.budgets after w' × IsNotice o.budgets o.notice

  -- An answer of `record_usage` tells what the core answered to the one recording, of the
  -- consumption as it was given. After an overrun
  -- it has the budget of each scope that it may concern, the demand's and the account's, in this
  -- order and as the core gave it, and a notice that names each of them; without an overrun it has
  -- neither, and nothing but the recording was asked of the core.
  pub record_usage-IsRecorded :
      (body : NewUsage) (key : String) (o : RecordUsageOutcome) (w' : W)
      → record_usage out stub body key s w ≡ (done o, w')
      → IsRecorded body o w'
  unfolding record_usage account_scoped call
  record_usage-IsRecorded body key o w' e =
      let first = idempotency out key s w in
      elim (Result-cases first.0) [
        | inr (exc, failed) ↦ absurd (ground arith)
        | inl (fresh, drawn) ↦
            let second = metadata out s first.1 in
            elim (Result-cases second.0) [
              | inr (exc, failed) ↦ absurd (ground arith)
              | inl (md, made) ↦
                  let third =
                    stub.record_usage md
                      (record { usage = usage_event body; idempotency_key = fresh }) second.1 in
                  elim (Result-cases third.0) [
                    | inr (exc, failed) ↦ absurd (ground arith)
                    | inl (resp, came) ↦
                        let facts =
                          outcome_of-done body.demand_id resp third.1 o w' (ground arith) in
                        record {
                          md = md;
                          key = fresh;
                          before = second.1;
                          resp = resp;
                          usage = usage_event body;
                          own = record {
                            model = refl;
                            thread_id = refl;
                            demand = refl;
                            input_tokens = refl;
                            output_tokens = refl;
                            cache_read_tokens = refl;
                            cache_creation_tokens = refl;
                            cost = refl;
                          };
                          after = third.1;
                          sent = ground arith;
                          recorded = facts.0;
                          exceeded = facts.1;
                          within = facts.2;
                          overrun = facts.3;
                        }
                  ]
            ]
      ]
