-- ===== src/Tests/Delivery.antt =====
-- The theorems about the merge queue and the board at concrete inputs.
use dop_api.Base.{suc, refl, ◌≡◌, ℕ, some, [], ◌∷◌, nat_eq, string_eq}
use dop_api.Platform.Errors.{StatusCode, AioRpcError, Error, raised}
use dop_api.Usecases.Delivery.{enqueue_merge}
use dop_api.Usecases.Delivery.Models.{DeliveryStub}
use dop_api.Usecases.Delivery.Refusal.{refusal}
use dop_api.Usecases.Delivery.Refusal.Laws.{refusal-join}
use dop_api.Tests.World.{unused, answering}

refusal-join_example :
    refusal (some "commit abc is not green: no acceptance run; no verdict") ≡ record {
      reason = "commit abc is not green";
      missing = "no acceptance run" ∷ "no verdict" ∷ [];
    }
refusal-join_example =
    refusal-join "commit abc is not green" "no acceptance run" ("no verdict" ∷ []) refl refl

abbrev not_green : AioRpcError
not_green = record {
  code = StatusCode.failed_precondition;
  details = some "not green: no acceptance run";
}

abbrev pub delivery_stub : DeliveryStub ℕ
delivery_stub = record {
  list_pull_requests = answering [];
  list_directives = answering [];
  get_merge_queue = unused;
  enqueue_merge = λ md request n. (raised (Error.rpc not_green), suc n);
  decide_directive = unused;
}
