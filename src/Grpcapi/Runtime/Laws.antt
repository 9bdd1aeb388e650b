-- ===== src/Grpcapi/Runtime/Laws.antt =====
-- What a client of the gRPC port learns of a turn.
use dop_api.Base.{refl, ◌≡◌, none, nat_eq, string_eq}
use dop_api.Usecases.Cost.Models.{Money}
use dop_api.Usecases.Runtime.Models.{PbTurnOutcome}
use dop_api.Usecases.Runtime.{turn_outcome}
use dop_api.Grpcapi.Runtime.{outcome_message}

-- Of what a turn cost, a client of the gRPC port learns nothing: whatever amount the core reports, the
-- message is the same, and it still says whether the cost is known.
outcome_message_uncosted :
    (o : PbTurnOutcome) (cost : Money)
    → let told = outcome_message (turn_outcome o) in
      let dearer = record o { usage = record (o.usage) { cost = cost } } in
      (outcome_message (turn_outcome dearer) ≡ told)
      × (told.usage.cost ≡ none)
      × (told.usage.cost_known ≡ o.usage.cost_known)
unfolding outcome_message turn_outcome
outcome_message_uncosted o cost = (refl, refl, refl)
