-- ===== src/Routers/Delivery/Laws.antt =====
-- The two ports tell a client the same about its place in the merge queue.
use mathlib.Core.Path.{subst}
use dop_api.Base.{inr, inl, ◌⊎◌, Option-cases, ℕ, ◌≡◌, String, false, none, some, is_empty, arith}
use dop_api.Platform.Errors.{Error, Result-cases, done, raised}
use dop_api.Platform.Context.{Scope}
use dop_api.Coreclient.Client.{Outside}
use dop_api.Usecases.Delivery.Models.{MergeAttempt, DeliveryStub}
use dop_api.Usecases.Delivery
use dop_api.Usecases.Delivery.Laws.{IsSettled, enqueue_merge-IsSettled}
use dop_api.Usecases.Forms.{new_merge_entry}
use dop_api.Grpcapi.Delivery.{BffEnqueueMerge, attempt_message, entry_message, enqueue_merge_rpc}
use dop_api.Routers.Delivery.{Content, response_of, enqueue_merge}

-- A response of REST, as the gRPC port puts it.
abbrev pub as_message : Content → BffEnqueueMerge
as_message (Content.detail r) = record { entry = none; refusal = some r }
as_message (Content.entry e) = record { entry = some (entry_message e); refusal = none }

-- The status that goes with a content.
abbrev pub status_of : Content → ℕ
status_of (Content.detail r) = 412
status_of (Content.entry e) = 201

response_settled :
    {W : Type 0} (a : MergeAttempt) (s : Scope) (w : W)
    → IsSettled (done a)
    → (c : Content) × (response_of a s w
        ≡ (done (record { status_code = status_of c; content = c }), w))
      × (attempt_message a ≡ as_message c)
unfolding response_of attempt_message
response_settled a s w settled = elim (Option-cases a.refusal) [
  | inl none_given ↦ elim (Option-cases a.entry) [
    | inl missing ↦ absurd (ground (arith, settled, none_given, missing))
    | inr (e, placed) ↦ (Content.entry e, ground arith, ground arith)
  ]
  | inr (r, given) ↦ elim (Option-cases a.entry) [
    | inl missing ↦ (Content.detail r, ground arith, ground arith)
    | inr (e, placed) ↦ absurd (ground (arith, settled, given, placed))
  ]
]

module _ {W : Type 0} (out : Outside W) (stub : DeliveryStub W) (s : Scope) (w : W) where
  -- A request for a place in the queue is answered alike on both ports: with 201 and the place, where
  -- gRPC has the place and no refusal, or with 412 and the refusal, where gRPC has the refusal, word
  -- for word, and no place; or both ports raise the same error. The calls outside are the same.
  pub enqueue_merge_ports :
      (repo_id demand_id key : String)
      → is_empty demand_id ≡ false
      → ((c : Content) × (v : W) × (enqueue_merge out stub repo_id
              (record { demand_id = demand_id })
              key
              s
              w
            ≡ (done (record { status_code = status_of c; content = c }), v))
          × (enqueue_merge_rpc out stub repo_id demand_id key s w ≡ (done (as_message c), v)))
        ⊎ ((e : Error) × (v : W) × (enqueue_merge out stub repo_id
                (record { demand_id = demand_id })
                key
                s
                w
              ≡ (raised e, v))
            × (enqueue_merge_rpc out stub repo_id demand_id key s w ≡ (raised e, v)))
  unfolding enqueue_merge enqueue_merge_rpc new_merge_entry
  enqueue_merge_ports repo_id demand_id key given =
      let asking =
        Delivery.enqueue_merge out stub repo_id (record { demand_id = demand_id }) key s w in
      let settled =
        enqueue_merge-IsSettled out stub s w repo_id key (record { demand_id = demand_id }) in
      elim (Result-cases asking.0) [
        | inr (e, failed) ↦ inr (e, asking.1, ground arith, ground arith)
        | inl (a, answered) ↦
            let told = response_settled a s asking.1 (subst IsSettled answered settled) in
            inl (told.0, asking.1, ground arith, ground arith)
      ]
