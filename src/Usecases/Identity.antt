-- ===== src/Usecases/Identity.antt =====
-- app/usecases/identity.py: accounts, members and invites. The profile and the proof of an address
-- are the children Profile and Verification.
pub mod Models
pub mod Messages
pub mod Profile
pub mod Verification
pub mod Laws
use dop_api.Base.{String, Bool, true, List, map, nat_eq, string_eq, if◌then◌else◌}
use dop_api.Platform.Context.{AuthContext}
use dop_api.Platform.Edge.{Edge, ◌>>=◌, pure, caller}
use dop_api.Platform.Decorator.{account_scoped, require_role, managers}
use dop_api.Coreclient.Client.{Outside, Caller, nobody, call, idempotency, metadata_for}
use dop_api.Coreclient.Convert.{role_name, role_value, account_kind_name, invite_status_name}
use dop_api.Coreclient.Identity.{Account, Membership}
use dop_api.Usecases.Timestamp.{Timestamp, ts}
use Models.{
  AccountSummary, AccountPatch, PlanChoice, HandleAvailability, NewAccount, MemberSummary,
  NewInvite, InviteSummary, InvitePreview, AcceptedInvite, MemberRole,
}
use Messages.{PbAccountItem, PbInvite, PbPreview, IdentityStub}

-- `_account_summary`.
abbrev pub account_summary : Account → String → AccountSummary
account_summary a role = record {
  id = a.id;
  handle = a.handle;
  display_name = a.display_name;
  kind = account_kind_name a.kind;
  role = role;
  plan_key = a.plan_key;
}

-- The account that `create_account` answers with: no plan is read.
abbrev pub created_account : Account → AccountSummary
created_account a = record {
  id = a.id;
  handle = a.handle;
  display_name = a.display_name;
  kind = account_kind_name a.kind;
  role = "owner";
  plan_key = "";
}

abbrev pub member_of : Membership → MemberSummary
member_of m = record { id = m.id; user_id = m.user_id; role = role_name m.role }

-- `_invite`.
abbrev pub invite_of : (Timestamp → String) → PbInvite → InviteSummary
invite_of isoformat i = record {
  id = i.id;
  email = i.email;
  role = role_name i.role;
  status = invite_status_name i.status;
  expires_at = ts isoformat i.expires_at;
}

abbrev pub preview_of : (Timestamp → String) → PbPreview → InvitePreview
preview_of isoformat i = record {
  id = i.id;
  account_name = i.account_name;
  role = role_name i.role;
  status = invite_status_name i.status;
  expires_at = ts isoformat i.expires_at;
  usable = i.usable;
}

-- The caller of `accept_invite`'s second call.
abbrev pub joiner : AuthContext → String → Caller
joiner ctx account_id = record nobody { user_id = ctx.user_id; account_id = account_id }

module _ {W : Type 0} (out : Outside W) (stub : IdentityStub W) (isoformat : Timestamp → String)
    (lower : String → String) where
  unfoldable pub handle_availability : String → Edge W HandleAvailability
  handle_availability handle = do
    h ← call out stub.check_handle handle
    pure (record { handle = h.handle; available = h.available; suggestion = h.suggestion })

  unfoldable pub update_personal_account : AccountPatch → Edge W AccountSummary
  update_personal_account body = do
    a ←
        call out stub.update_personal_account
          (record { handle = body.handle; display_name = body.display_name })
    pure (account_summary a "owner")

  unfoldable pub set_plan : PlanChoice → Edge W AccountSummary
  set_plan body = do a ← call out stub.set_plan body.plan_key; pure (account_summary a "owner")

  unfoldable pub list_accounts : Edge W (List AccountSummary)
  list_accounts = do
    ctx ← caller
    items ← call out stub.list_accounts ctx.user_id
    pure (map (λ (it : PbAccountItem). account_summary it.account (role_name it.role)) items)

  unfoldable pub create_account : NewAccount → String → Edge W AccountSummary
  create_account body idempotency_key = account_scoped do
    key ← idempotency out idempotency_key
    a ← call out stub.create_account (record {
      kind = 2;
      handle = body.handle;
      display_name = body.display_name;
      legal_id = body.legal_id;
      idempotency_key = key;
    })
    pure (created_account a)

  pub list_members : Edge W (List MemberSummary)
  list_members = account_scoped (
      require_role managers do
        ctx ← caller
        ms ← call out stub.list_memberships ctx.account_id
        pure (map member_of ms))

  pub create_invite : NewInvite → String → Edge W InviteSummary
  create_invite body idempotency_key = account_scoped (
      require_role managers do
        key ← idempotency out idempotency_key
        i ← call out stub.create_invite (record {
          email = body.email;
          role = role_value lower body.role;
          grants = body.grants;
          idempotency_key = key;
        })
        pure (invite_of isoformat i))

  pub list_invites : Edge W (List InviteSummary)
  list_invites = account_scoped (
      require_role managers
        do is ← call out stub.list_invites tt; pure (map (invite_of isoformat) is))

  unfoldable pub get_invite : String → Edge W InvitePreview
  get_invite invite_id = do i ← call out stub.get_invite invite_id; pure (preview_of isoformat i)

  -- The second call goes out under metadata of its own, for the account just joined.
  abbrev pub joined_account : AuthContext → Membership → Edge W AcceptedInvite
  joined_account ctx m = do
    md ← metadata_for out (joiner ctx m.account_id)
    a ← λ s w. stub.get_account md m.account_id w
    pure (record { account_id = a.id; account_name = a.display_name; role = role_name m.role })

  unfoldable pub accept_invite : String → String → Edge W AcceptedInvite
  accept_invite invite_id idempotency_key = do
    ctx ← caller
    key ← idempotency out idempotency_key
    m ← call out stub.accept_invite (record { invite_id = invite_id; idempotency_key = key })
    joined_account ctx m

  pub revoke_invite : String → Edge W InviteSummary
  revoke_invite invite_id = account_scoped (
      require_role managers
        do i ← call out stub.revoke_invite invite_id; pure (invite_of isoformat i))

  pub update_member : String → MemberRole → Edge W MemberSummary
  update_member membership_id body = account_scoped (
      require_role managers do
        m ←
            call out stub.update_membership
              (record { membership_id = membership_id; role = role_value lower body.role })
        pure (member_of m))

  -- No decorator stands on it.
  pub remove_member : String → Edge W Bool
  remove_member membership_id = do _ ← call out stub.remove_membership membership_id; pure true
