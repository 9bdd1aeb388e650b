-- ===== src/Coreclient/Client/Laws.antt =====
-- What the core learns of the caller.
use dop_api.Base.{
  inl, inr, if◌then◌else◌, true, false, none, some, ◌≡◌, ◌<>◌, is_empty, get, arith, ◌&&◌,
}
use dop_api.Platform.Context.{Scope}
use dop_api.Platform.Errors.{done, Result-cases}
use dop_api.Coreclient.Client.{
  Rpc, call, metadata, Outside, Metadata, Caller, metadata_for, request_id, assertion_entry,
}

module _ {W : Type 0} (out : Outside W) where
  assertion_entry-shape :
      (c : Caller) (s : Scope) (w w' : W) (md : Metadata)
      → assertion_entry out c s w ≡ (done md, w')
      → (get md "authorization" ≡ none)
        × (get md "x-account-id" ≡ none)
        × (get md "x-actor-id" ≡ none)
        × (get md "x-session-id" ≡ none)
  unfolding assertion_entry
  assertion_entry-shape c s w w' md e = ground arith

  -- The metadata of a call made for a user or in an account: the person's token goes whole, or not
  -- at all if there is none, and the account, the user, the kind of actor and the session are the
  -- caller's own.
  pub metadata_for_carries :
      (c : Caller) (s : Scope) (w w' : W) (md : Metadata)
      → (is_empty c.user_id && is_empty c.account_id) ≡ false
      → metadata_for out c s w ≡ (done md, w')
      → (get md "authorization"
          ≡ (if is_empty c.raw_token then none else some ("Bearer " <> c.raw_token)))
        × (get md "x-account-id" ≡ some c.account_id)
        × (get md "x-actor-id" ≡ some c.user_id)
        × (get md "x-actor-kind" ≡ some c.actor_kind)
        × (get md "x-session-id" ≡ some c.session_id)
  unfolding metadata_for request_id assertion_entry
  metadata_for_carries c s w w' md known e = ground arith

  -- A call made for nobody, as the resolver's first, names no account and no actor.
  metadata_for_anonymous :
      (c : Caller) (s : Scope) (w w' : W) (md : Metadata)
      → (is_empty c.user_id && is_empty c.account_id) ≡ true
      → metadata_for out c s w ≡ (done md, w')
      → (get md "x-account-id" ≡ none)
        × (get md "x-actor-id" ≡ none)
        × (get md "x-session-id" ≡ none)
  unfolding metadata_for request_id assertion_entry
  metadata_for_anonymous c s w w' md nobody e = ground arith

  -- Two methods that answer alike to a request make the same call.
  pub call_alike :
      {Q A : Type 0} (rpc other : Rpc W Q A) (q : Q) (s : Scope) (w : W)
      → ((md : Metadata) (v : W) → rpc md q v ≡ other md q v)
      → call out rpc q s w ≡ call out other q s w
  unfolding call
  call_alike rpc other q s w alike =
      let carrying = metadata out s w in
      elim (Result-cases carrying.0) [
        | inr (e, failed) ↦ ground arith
        | inl (md, carried) ↦ ground (arith, alike md carrying.1)
      ]
