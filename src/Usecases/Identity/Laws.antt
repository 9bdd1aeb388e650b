-- ===== src/Usecases/Identity/Laws.antt =====
-- Who may manage members, and what an invitation that is accepted leads to.
use dop_api.Coreclient.Client.{
  request_id, Outside, Metadata, metadata, metadata_for, call, idempotency,
}
use dop_api.Base.{refl, ◌≡◌, inl, inr, String, false, some, nat_eq, string_eq, is_empty, arith}
use dop_api.Platform.Context.{Scope, AuthContext, has_role}
use dop_api.Platform.Errors.{Result-cases, done, refuse}
use dop_api.Platform.Decorator.{managers}
use dop_api.Platform.Decorator.Laws.{role_missing}
use dop_api.Coreclient.Convert.Laws.{role_numbered, role_name-role_numbered}
use dop_api.Coreclient.Identity.{Account, Membership}
use dop_api.Usecases.Timestamp.{Timestamp}
use dop_api.Usecases.Identity.Models.{NewInvite, MemberRole, AcceptedInvite}
use dop_api.Usecases.Identity.Messages.{IdentityStub}
use dop_api.Usecases.Identity.{
  joiner, joined_account, list_members, create_invite, list_invites, revoke_invite, update_member,
  remove_member, accept_invite,
}

module _ {W : Type 0} (out : Outside W) (stub : IdentityStub W) (isoformat : Timestamp → String)
    (lower : String → String) (s : Scope) (w : W) (ctx : AuthContext)
    (here : s.auth_ctx ≡ some ctx) where
  -- A caller with an active account who is neither owner nor admin reads no members and no invites,
  -- invites nobody, revokes no invite and changes no role: each answers 403, and the core is not
  -- called.
  members_managed :
      (body : NewInvite) (role : MemberRole) (id key : String)
      → is_empty ctx.account_id ≡ false
      → has_role ctx managers ≡ false
      → (list_members out stub isoformat lower s w ≡ (refuse 403 "Insufficient permission", w))
        × (create_invite out stub isoformat lower body key s w
            ≡ (refuse 403 "Insufficient permission", w))
        × (list_invites out stub isoformat lower s w ≡ (refuse 403 "Insufficient permission", w))
        × (revoke_invite out stub isoformat lower id s w
            ≡ (refuse 403 "Insufficient permission", w))
        × (update_member out stub isoformat lower id role s w
            ≡ (refuse 403 "Insufficient permission", w))
  unfolding list_members create_invite list_invites revoke_invite update_member
  members_managed body role id key account lacks = (
    role_missing managers _ s w ctx here account lacks,
    role_missing managers _ s w ctx here account lacks,
    role_missing managers _ s w ctx here account lacks,
    role_missing managers _ s w ctx here account lacks,
    role_missing managers _ s w ctx here account lacks,
  )

  -- Removing a member is the same call whatever role the caller has: the edge sends a viewer's
  -- request to the core as it sends an owner's.
  remove_member_any_role :
      (role id : String)
      → remove_member out stub isoformat lower id
          (record s { auth_ctx = some (record ctx { role = role }) })
          w
        ≡ remove_member out stub isoformat lower id s w
  unfolding remove_member call metadata metadata_for request_id
  remove_member_any_role role id = rw here refl

-- The two calls of the core behind an accepted invitation.
pub record IsJoined {W : Type 0} (out : Outside W) (stub : IdentityStub W) (invite_id : String)
    (ctx : AuthContext) (s : Scope) (r : AcceptedInvite) : Type 0 where
  pub membership : Membership
  pub account : Account
  pub key : String
  pub carried : Metadata
  pub own : Metadata
  pub before : W
  pub drawn : W
  pub joined : W
  pub known : W
  pub accepted :
      stub.accept_invite carried (record { invite_id = invite_id; idempotency_key = key }) before
      ≡ (done membership, joined)
  pub identified :
      metadata_for out
        (record {
          user_id = ctx.user_id;
          account_id = membership.account_id;
          raw_token = "";
          actor_name = "";
          actor_kind = "user";
          session_id = "";
        })
        s
        joined
      ≡ (done own, drawn)
  pub asked : stub.get_account own membership.account_id drawn ≡ (done account, known)
  pub answer : r ≡ record {
    account_id = account.id;
    account_name = account.display_name;
    role = role_numbered membership.role;
  }

module _ {W : Type 0} (out : Outside W) (stub : IdentityStub W) (isoformat : Timestamp → String)
    (lower : String → String) (invite_id key : String) (s : Scope) (w : W) (ctx : AuthContext)
    (here : s.auth_ctx ≡ some ctx) where
  -- What follows the acceptance.
  joined_account-IsJoined :
      (r : AcceptedInvite) (after : W) (md : Metadata) (k : String) (m : Membership) (u v : W)
      → stub.accept_invite md (record { invite_id = invite_id; idempotency_key = k }) u
        ≡ (done m, v)
      → joined_account out stub isoformat lower ctx m s v ≡ (done r, after)
      → IsJoined out stub invite_id ctx s r
  joined_account-IsJoined r after md k m u v took ends =
      let naming = metadata_for out (joiner ctx m.account_id) s v in
      elim (Result-cases naming.0) [
        | inr (e, failed) ↦ absurd (ground arith)
        | inl (own, named) ↦
            let asking = stub.get_account own m.account_id naming.1 in
            elim (Result-cases asking.0) [
              | inr (e, failed) ↦ absurd (ground arith)
              | inl (a, told) ↦ record {
                membership = m;
                account = a;
                key = k;
                carried = md;
                own = own;
                before = u;
                joined = v;
                drawn = naming.1;
                known = asking.1;
                accepted = took;
                identified = ground arith;
                asked = ground arith;
                answer = ground (arith, role_name-role_numbered m.role);
              }
            ]
      ]

  -- An accepted invitation answers with the account that the core says was joined, which the edge has
  -- read under metadata that name that account and the caller, and with the role of the membership.
  pub accept_invite-IsJoined :
      (r : AcceptedInvite) (after : W)
      → accept_invite out stub isoformat lower invite_id key s w ≡ (done r, after)
      → IsJoined out stub invite_id ctx s r
  unfolding accept_invite call
  accept_invite-IsJoined r after ends =
      let drawing = idempotency out key s w in
      elim (Result-cases drawing.0) [
        | inr (e, failed) ↦ absurd (ground arith)
        | inl (k, drew) ↦
            let carrying = metadata out s drawing.1 in
            elim (Result-cases carrying.0) [
              | inr (e, failed) ↦ absurd (ground arith)
              | inl (md, made) ↦
                  let accepting =
                    stub.accept_invite md (record { invite_id = invite_id; idempotency_key = k })
                      carrying.1 in
                  elim (Result-cases accepting.0) [
                    | inr (e, failed) ↦ absurd (ground arith)
                    | inl (m, took) ↦
                        joined_account-IsJoined r after md k m carrying.1 accepting.1 (ground arith)
                          (ground arith)
                  ]
            ]
      ]
