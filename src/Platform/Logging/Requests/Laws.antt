-- ===== src/Platform/Logging/Requests/Laws.antt =====
-- One id goes through a request: from the client, or drawn for it, into every call of the core, and
-- back to the client.
use dop_api.Base.{
  String, if◌then◌else◌, ◌≡◌, inl, inr, false, some, nat_eq, string_eq, get, is_empty, arith,
}
use dop_api.Platform.Context.{Scope}
use dop_api.Platform.Errors.{Result-cases, done}
use dop_api.Platform.Edge.{Edge}
use dop_api.Coreclient.Client.{
  metadata_for, request_id, assertion_entry, Outside, Metadata, metadata,
}
use dop_api.Platform.Logging.Requests.{
  Opened, LoggedResponse, Journal, request_scope, own_id, dispatch,
}

-- The id that the client sent, or else the one drawn.
abbrev pub traced_id : {W : Type 0} → Outside W → Opened → W → String
traced_id out req w = if is_empty req.request_id then (out.uuid_hex w).0 else req.request_id

module _ {W : Type 0} (out : Outside W) (journal : Journal W) (req : Opened) (s : Scope)
    (w : W) where
  header :
      (call_next : Edge W LoggedResponse) (resp : LoggedResponse) (after : W)
      → dispatch out journal req call_next s w ≡ (done resp, after)
      → get resp.headers "x-request-id" ≡ some (traced_id out req w)
  unfolding dispatch
  header call_next resp after ends =
      let rid = own_id out req w in
      elim (Result-cases (call_next (request_scope s req rid.0) rid.1).0) [
        | inl (inner, ok) ↦ ground arith
        | inr (e, failed) ↦ absurd (ground arith)
      ]

  sent :
      (md : Metadata) (u v : W)
      → is_empty (out.uuid_hex w).0 ≡ false
      → metadata out (request_scope s req (own_id out req w).0) u ≡ (done md, v)
      → get md "x-request-id" ≡ some (traced_id out req w)
  unfolding metadata metadata_for request_id assertion_entry
  sent md u v drawn carried = ground arith

  -- The two handlers do alike wherever what they call the core with carries the request's id.
  abbrev pub TracedAlike : Edge W LoggedResponse → Edge W LoggedResponse → Type 0
  TracedAlike call_next other =
      (inside : Scope) (u : W)
      → ((md : Metadata) (v before : W)
          → metadata out inside before ≡ (done md, v)
          → get md "x-request-id" ≡ some (traced_id out req w))
      → call_next inside u ≡ other inside u

  -- The id that the client sent, or else the one drawn for it, stands in the answer's header, and every
  -- call of the core made while the request is handled carries it: a handler that does otherwise in
  -- any context from which a call would not carry it makes no difference. What is drawn is not empty.
  pub dispatch_traced :
      (call_next other : Edge W LoggedResponse) (resp : LoggedResponse) (after : W)
      → is_empty (out.uuid_hex w).0 ≡ false
      → TracedAlike call_next other
      → dispatch out journal req call_next s w ≡ (done resp, after)
      → (get resp.headers "x-request-id" ≡ some (traced_id out req w))
        × (dispatch out journal req other s w ≡ (done resp, after))
  unfolding dispatch
  dispatch_traced call_next other resp after drawn alike ends =
      let rid = own_id out req w in
      let same =
        alike (request_scope s req rid.0) rid.1
          (λ md v before carried. sent md before v drawn carried) in
      (header call_next resp after ends, ground (arith, same))
