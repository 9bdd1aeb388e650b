-- ===== src/Usecases/Delivery/Laws.antt =====
-- What the delivery screen may rely on.
use dop_api.Base.{
  is_some, sym, refl, ◌≡◌, inl, inr, String, Bool, true, false, none, some, not, nat_eq, string_eq,
  arith, Bool-cases,
}
use mathlib.Core.Path.{subst}
use dop_api.Usecases.Delivery.Refusal.{refusal}
use dop_api.Platform.Context.{Scope}
use dop_api.Platform.Errors.{
  AioRpcError, Result, done, raised, rpc, http, validation, failure, Result-cases,
}
use dop_api.Platform.Edge.{Edge, gather_two}
use dop_api.Platform.Decorator.Laws.{guarded_cases}
use dop_api.Platform.Decorator.{account_scoped, writers}
use dop_api.Coreclient.Client.{Outside}
use dop_api.Usecases.Delivery.Models.{
  PbMergeQueueEntry, MergeAttempt, DeliveryBoard, NewMergeEntry, DeliveryStub,
}
use dop_api.Usecases.Delivery.{
  is_failed_precondition, attempt_of, attempt, enqueue_merge, get_board, list_pull_requests,
  list_directives,
}

-- An attempt is either in the queue or refused, never both and never neither; what is raised is no
-- refusal of the queue.
abbrev pub IsSettled : Result MergeAttempt → Type 0
IsSettled (done a) = is_some a.entry ≡ not (is_some a.refusal)
IsSettled (raised (rpc exc)) = is_failed_precondition exc.code ≡ false
IsSettled (raised (http e)) = Unit
IsSettled (raised (validation e)) = Unit
IsSettled (raised (failure e)) = Unit

refused :
    (exc : AioRpcError)
    → is_failed_precondition exc.code ≡ true
    → attempt_of (raised (rpc exc))
      ≡ done (record { entry = none; refusal = some (refusal exc.details) })
refused exc h = ground arith

kept :
    (exc : AioRpcError)
    → is_failed_precondition exc.code ≡ false
    → attempt_of (raised (rpc exc)) ≡ raised (rpc exc)
kept exc h = ground arith

attempt_of-IsSettled : (r : Result PbMergeQueueEntry) → IsSettled (attempt_of r)
attempt_of-IsSettled (done e) = refl
attempt_of-IsSettled (raised (rpc exc)) = elim (Bool-cases (is_failed_precondition exc.code)) [
  | inl failed ↦ subst IsSettled (sym (refused exc failed)) refl
  | inr other ↦ subst IsSettled (sym (kept exc other)) other
]
attempt_of-IsSettled (raised (http e)) = tt
attempt_of-IsSettled (raised (validation e)) = tt
attempt_of-IsSettled (raised (failure e)) = tt

-- Both calls were answered, one after the other, and the second left the world as it is now.
abbrev pub RanBoth : {W A B : Type 0} → Bool → Edge W A → Edge W B → Scope → W → A → B → W → Type 0
RanBoth true a b s w x y w' = ((a s w).0 ≡ done x) × (b s (a s w).1 ≡ (done y, w'))
RanBoth false a b s w x y w' = ((b s w).0 ≡ done y) × (a s (b s w).1 ≡ (done x, w'))

gather_two-done :
    {W A B : Type 0} (first : Bool) (a : Edge W A) (b : Edge W B) (s : Scope) (w : W) (x : A)
    (y : B) (w' : W)
    → gather_two first a b s w ≡ (done (x, y), w')
    → RanBoth first a b s w x y w'
unfolding gather_two
gather_two-done true a b s w x y w' e = elim (Result-cases (a s w).0) [
  | inr (exc, failed) ↦ absurd (ground arith)
  | inl (x', ok) ↦ (ground arith, ground arith)
]
gather_two-done false a b s w x y w' e = elim (Result-cases (a s (b s w).1).0) [
  | inr (exc, failed) ↦ absurd (ground arith)
  | inl (x', ok) ↦ (ground arith, ground arith)
]

module _ {W : Type 0} (out : Outside W) (stub : DeliveryStub W) (s : Scope) (w : W) where
  pub enqueue_merge-IsSettled :
      (repo_id key : String) (body : NewMergeEntry)
      → IsSettled (enqueue_merge out stub repo_id body key s w).0
  unfolding enqueue_merge attempt
  enqueue_merge-IsSettled repo_id key body =
      let inner = attempt out stub repo_id body key in
      elim (guarded_cases writers inner s w) [
        | inl runs ↦ subst (λ r. IsSettled r.0) (sym runs) (attempt_of-IsSettled _)
        | inr (e, stops) ↦ subst (λ r. IsSettled r.0) (sym stops) tt
      ]

  -- The board is an answer only if both reads were: it holds the lists that they gave, whichever
  -- of them ended first. If one read fails, the board is an error though the other one answered.
  get_board-IsWhole :
      (first : Bool) (project_id : String) (b : DeliveryBoard) (w' : W)
      → get_board out stub first project_id s w ≡ (done b, w')
      → RanBoth first
          (list_pull_requests out stub "" project_id)
          (list_directives out stub project_id)
          s
          w
          b.pull_requests
          b.directives
          w'
  unfolding get_board account_scoped
  get_board-IsWhole first project_id b w' e =
      let both =
        gather_two first (list_pull_requests out stub "" project_id)
          (list_directives out stub project_id) s w in
      elim (Result-cases both.0) [
        | inr (exc, failed) ↦ absurd (ground arith)
        | inl (pair, ok) ↦
            gather_two-done first (list_pull_requests out stub "" project_id)
              (list_directives out stub project_id) s w b.pull_requests b.directives w'
              (ground arith)
      ]
